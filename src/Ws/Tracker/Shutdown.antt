-- ===== src/Ws/Tracker/Shutdown.antt =====
-- Graceful shutdown of the WebSocket connections (internal/ws/shutdown.go).
use haprovider.Prelude.{ℕ, zero, suc, ◌+◌, ◌≡◌, ◌≤◌, true, List, [], ◌∷◌, pos, if◌then◌else◌, arith}
use haprovider.Prelude.Outcome.{Outcome, done, panicked, ◌>>=◌}
use haprovider.Ws.Tracker.{Tracker, new_tracker, add, release, close_all, can_return}

-- What happens to the tracker: a handler registers its connection, one that did so returns, or
-- shutdown begins (CloseAll).
pub data Event : Type 0 where
  opened closed shut_down : Event

-- The tracker and the number of handlers that have registered and not returned.
abbrev pub System : Type 0
System = Tracker × ℕ

happen : System → Event → Outcome System
happen (t, handlers) opened =
    let (u, registered) = add t in done (u, if registered then handlers + 1 else handlers)
happen (t, zero) closed = done (t, zero)
happen (t, suc handlers) closed = release t >>= λ u. done (u, handlers)
happen (t, handlers) shut_down = close_all t >>= λ u. done (u, handlers)

pub life : System → List Event → Outcome System
life s [] = done s
life s (e ∷ es) = happen s e >>= λ s'. life s' es

-- The counter is the number of handlers; `shutdown` is closed once closing, and `idle` exactly once
-- closing with no handler left.
pub record Inv (s : System) : Type 0 where
  pub counted : s.0.n ≡ pos s.1
  pub signalled : s.0.shutdown ≡ s.0.closing
  pub idle_sound : s.0.idle ≡ true → (s.0.closing ≡ true) × (s.1 ≡ 0)
  pub idle_complete : s.0.closing ≡ true → s.1 ≡ 0 → s.0.idle ≡ true

-- A run that does not panic and ends in a state with P.
abbrev pub EndsIn : (System → Type 0) → Outcome System → Type 0
EndsIn P (done s) = P s
EndsIn P panicked = ⊥

happen-Inv : (s : System) (e : Event) → Inv s → EndsIn Inv (happen s e)
unfolding happen add release close_all
happen-Inv (t, handlers) opened v = ground arith
happen-Inv (t, zero) closed v = v
happen-Inv (t, suc handlers) closed v = ground arith
happen-Inv (t, handlers) shut_down v = ground arith

EndsIn->>= :
    (P Q : System → Type 0) (o : Outcome System) (f : System → Outcome System)
    → EndsIn P o
    → ((s : System) → P s → EndsIn Q (f s))
    → EndsIn Q (o >>= f)
EndsIn->>= P Q (done s) f p next = next s p
EndsIn->>= P Q panicked f p next = absurd p

life-keeps : (s : System) (es : List Event) → Inv s → EndsIn Inv (life s es)
unfolding life
life-keeps s [] v = v
life-keeps s (e ∷ es) v =
    EndsIn->>= Inv Inv (happen s e) (λ s'. life s' es) (happen-Inv s e v)
      (λ s' v'. life-keeps s' es v')

-- Whatever connections open and close, and however often shutdown is asked for, no channel is
-- closed twice, and at any time the channel that ends Wait is closed exactly if shutdown has begun
-- and no connection is left.
pub life-Inv : (es : List Event) → EndsIn Inv (life (new_tracker, 0) es)
life-Inv es = life-keeps (new_tracker, 0) es (ground arith)

abbrev pub count_closed : List Event → ℕ
count_closed [] = 0
count_closed (closed ∷ es) = suc (count_closed es)
count_closed (_ ∷ es) = count_closed es

-- Shutdown has begun, and so many handlers at most are left.
record Closing (left : ℕ) (s : System) : Type 0 where
  valid : Inv s
  begun : s.0.closing ≡ true
  few : s.1 ≤ left

happen-Closing :
    (s : System) (e : Event) (es : List Event)
    → Closing (count_closed (e ∷ es)) s
    → EndsIn (Closing (count_closed es)) (happen s e)
unfolding happen add release close_all
happen-Closing (t, handlers) opened es v = ground arith
happen-Closing (t, zero) closed es v = ground arith
happen-Closing (t, suc handlers) closed es v = ground arith
happen-Closing (t, handlers) shut_down es v = ground arith

life-Closing :
    (s : System) (es : List Event) → Closing (count_closed es) s → EndsIn (Closing 0) (life s es)
unfolding life
life-Closing s [] v = v
life-Closing s (e ∷ es) v =
    EndsIn->>= (Closing (count_closed es)) (Closing 0) (happen s e) (λ s'. life s' es)
      (happen-Closing s e es v) (λ s' v'. life-Closing s' es v')

EndsIn-imp :
    (P Q : System → Type 0) (o : Outcome System)
    → EndsIn P o
    → ((s : System) → P s → Q s)
    → EndsIn Q o
EndsIn-imp P Q (done s) p h = h s p
EndsIn-imp P Q panicked p h = p

-- Once shutdown has begun, Wait returns after as many handlers have returned as were open: new
-- connections that come meanwhile are refused, and do not put it off.
pub life-can_return :
    (s : System) (es : List Event)
    → Inv s
    → s.0.closing ≡ true
    → s.1 ≤ count_closed es
    → EndsIn (λ s'. can_return s'.0 ≡ true) (life s es)
unfolding can_return
life-can_return s es v begun few =
    EndsIn-imp (Closing 0) (λ s'. can_return s'.0 ≡ true) (life s es)
      (life-Closing s es (record { valid = v; begun = begun; few = few }))
      (λ s' c. c.valid.idle_complete c.begun (omega arith))
