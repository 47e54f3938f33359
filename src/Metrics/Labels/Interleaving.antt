-- ===== src/Metrics/Labels/Interleaving.antt =====
-- AdmitMethod as several goroutines run it (internal/metrics/labels.go): each access to the map or
-- the counter is one atomic step, and a schedule says whose step is next.
use haprovider.Prelude.{
  ℕ, zero, suc, ◌+◌, ◌-◌, ◌≡◌, ◌≤◌, ◌⊎◌, refl, List, [], ◌∷◌, map, ltb, if◌then◌else◌, is_empty,
  Text, length, member, arith,
}
use haprovider.Metrics.Labels.{Labels, max_method_labels, no_labels}

-- Where a goroutine stands in AdmitMethod.
pub data Thread : Type 0 where
  -- before the first look at the map
  start : Text → Thread
  -- before Add(1)
  missed : Text → Thread
  -- before LoadOrStore
  reserved : Text → Thread
  -- before Add(-1)
  undo : Thread
  finished : Thread

-- The next step of a goroutine.
move : Labels → Thread → Labels × Thread
unfolding member
move l (start m) =
    if is_empty m
    then (l, finished)
    else (if member m l.admitted then (l, finished) else (l, missed m))
move l (missed m) = (
  record l { count = l.count + 1 },
  if ltb max_method_labels (l.count + 1) then undo else reserved m,
)
move l (reserved m) =
    if member m l.admitted then (l, undo) else (record l { admitted = m ∷ l.admitted }, finished)
move l undo = (record l { count = l.count - 1 }, finished)
move l finished = (l, finished)

-- The step of the goroutine at a position; there is none past the end.
step : ℕ → Labels → List Thread → Labels × List Thread
step i l [] = (l, [])
step zero l (t ∷ ts) = let (l', t') = move l t in (l', t' ∷ ts)
step (suc i) l (t ∷ ts) = let (l', ts') = step i l ts in (l', t ∷ ts')

pub interleave : List ℕ → Labels → List Thread → Labels × List Thread
interleave [] l ts = (l, ts)
interleave (i ∷ is) l ts = let (l', ts') = step i l ts in interleave is l' ts'

abbrev reserving : Thread → ℕ
reserving (reserved m) = 1
reserving _ = 0

abbrev undoing : Thread → ℕ
undoing undo = 1
undoing _ = 0

-- The goroutines with a reservation, and those with one to undo
total : (Thread → ℕ) → List Thread → ℕ
total f [] = 0
total f (t ∷ ts) = f t + total f ts

abbrev used : Labels → List Thread → ℕ
used l ts = length l.admitted + total reserving ts

record Inv (l : Labels) (ts : List Thread) : Type 0 where
  counted : l.count ≡ used l ts + total undoing ts
  bounded : used l ts ≤ max_method_labels

-- What a step changes: the counter moves with the labels and reservations, and these grow by a new
-- reservation alone, which the counter left room for.
record Change (l l' : Labels) (ts ts' : List Thread) : Type 0 where
  balance : l'.count + used l ts + total undoing ts ≡ l.count + used l' ts' + total undoing ts'
  room :
      (used l' ts' ≤ used l ts)
      ⊎ ((used l' ts' ≡ used l ts + 1) × (l.count + 1 ≤ max_method_labels))

move-Change :
    (l : Labels) (t : Thread)
    → undoing t ≤ l.count
    → let (l', t') = move l t in
      (l'.count + (length l.admitted + reserving t) + undoing t
        ≡ l.count + (length l'.admitted + reserving t') + undoing t')
      × ((length l'.admitted + reserving t' ≤ length l.admitted + reserving t)
          ⊎ ((length l'.admitted + reserving t' ≡ length l.admitted + reserving t + 1)
              × (l.count + 1 ≤ max_method_labels)))
unfolding move
move-Change l (start m) h = ground arith
move-Change l (missed m) h = ground arith
move-Change l (reserved m) h = ground arith
move-Change l undo h = ground arith
move-Change l finished h = ground arith

step-Change :
    (i : ℕ) (l : Labels) (ts : List Thread)
    → total undoing ts ≤ l.count
    → Change l (step i l ts).0 ts (step i l ts).1
unfolding step total
step-Change i l [] h = ground arith
step-Change zero l (t ∷ ts) h = ground (arith, move-Change l t)
step-Change (suc i) l (t ∷ ts) h = ground (arith, step-Change i l ts)

step-Inv : (i : ℕ) (l : Labels) (ts : List Thread) → Inv l ts → Inv (step i l ts).0 (step i l ts).1
step-Inv i l ts v = ground (arith, step-Change i l ts)

interleave-Inv :
    (is : List ℕ) (l : Labels) (ts : List Thread)
    → Inv l ts
    → Inv (interleave is l ts).0 (interleave is l ts).1
unfolding interleave
interleave-Inv [] l ts v = v
interleave-Inv (i ∷ is) l ts v =
    interleave-Inv is (step i l ts).0 (step i l ts).1 (step-Inv i l ts v)

total-start :
    (f : Thread → ℕ) (ms : List Text) → ((m : Text) → f (start m) ≡ 0) → total f (map start ms) ≡ 0
unfolding total
total-start f [] h = refl
total-start f (m ∷ ms) h = omega (arith, h m, total-start f ms h)

-- However many goroutines admit methods at once, and however their steps interleave, there are
-- never more than 1000 labels.
pub interleave-bounded :
    (schedule : List ℕ) (ms : List Text)
    → length (interleave schedule no_labels (map start ms)).0.admitted ≤ max_method_labels
interleave-bounded schedule ms =
    let begin : Inv no_labels (map start ms) = record {
      counted =
          omega (arith, total-start reserving ms (λ m. refl), total-start undoing ms (λ m. refl));
      bounded = omega (arith, total-start reserving ms (λ m. refl));
    } in
    let last = interleave-Inv schedule no_labels (map start ms) begin in omega arith
