-- ===== src/Ws/Pump/Pending.antt =====
-- Which method a response is attributed to (trackPending and pumpProvider of internal/ws/ws.go).
use haprovider.Prelude.{
  ◌≡◌, ◌≢◌, refl, List, [], ◌∷◌, Option, none, some, if◌then◌else◌, is_empty, Text, text_eq,
  text_eq_iff, Dict, lookup, lookup-insert, lookup-delete, arith,
}
use haprovider.Ws.Pump.{track_pending, settle}

-- What goes over a connection, the last event first: a request with its id and method, or a response
-- with its id
pub data Event : Type 0 where
  sent : (id method : Text) → Event
  answered : (id : Text) → Event

-- The map `pending` after these events
pub pending_after : List Event → Dict Text
unfolding track_pending settle
pending_after [] = []
pending_after (sent id method ∷ es) = track_pending (pending_after es) id method
pending_after (answered id ∷ es) = (settle (pending_after es) id).1

-- The method of the last request with the id, unless a response with it has come since
pub waiting : Text → List Event → Option Text
unfolding text_eq
waiting id [] = none
waiting id (sent j method ∷ es) = if text_eq j id then some method else waiting id es
waiting id (answered j ∷ es) = if text_eq j id then none else waiting id es

lookup-pending_after :
    (id : Text) (es : List Event) → id ≢ [] → lookup id (pending_after es) ≡ waiting id es
unfolding pending_after waiting track_pending settle lookup
lookup-pending_after id [] filled = refl
lookup-pending_after id (sent [] method ∷ es) filled =
    ground (arith, lookup-pending_after id es filled, text_eq_iff [] id)
lookup-pending_after id (sent (c ∷ j) method ∷ es) filled =
    ground
      (arith, lookup-pending_after id es filled, lookup-insert (c ∷ j) id method (pending_after es))
lookup-pending_after id (answered [] ∷ es) filled =
    ground (arith, lookup-pending_after id es filled, text_eq_iff [] id)
lookup-pending_after id (answered (c ∷ j) ∷ es) filled =
    ground (arith, lookup-pending_after id es filled, lookup-delete (c ∷ j) id (pending_after es))

-- The method that a response is attributed to is that of the last request sent with its id that has
-- not been answered since, and none if its id is empty or there is no such request.
pub settle-waiting :
    (id : Text) (es : List Event)
    → (settle (pending_after es) id).0
      ≡ (if is_empty id then [] else (elim (waiting id es) [ none ↦ [] | some m ↦ m ]))
unfolding settle
settle-waiting [] es = refl
settle-waiting (c ∷ id) es = rw (lookup-pending_after (c ∷ id) es (λ e. cc)) refl
