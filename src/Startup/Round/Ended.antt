-- ===== src/Startup/Round/Ended.antt =====
-- wg.Wait of the first round can always return (cmd/haprovider/main.go).
use haprovider.Prelude.{
  ℕ, zero, suc, ◌+◌, ◌*◌, ◌≡◌, ◌≤◌, ◌<◌, refl, true, ◌⊎◌, inl, inr, List, [], ◌∷◌, map, length,
  arith,
}
use haprovider.Core.Endpoint.{Endpoint}
use haprovider.Startup.Round.{
  Stage, Check, Shared, launched, counted, checking, naming, comparing, observing, passed,
  counted_online, healthy, failed, leaving, finished, to_stage, on_stage, move, step, Round, Turn,
  main, goroutine, main_step, take_turn, play, first_round,
}
use haprovider.Startup.Round.Inside.{left, ask-IsInside, on_named-IsInside, compare-IsInside}
use haprovider.Startup.Round.Moves.{unended, unfinished, Subject, subject}
use haprovider.Startup.Round.Waited.{in_turn, Inv, take_turn-Inv, play-Inv, first_round-Inv}

-- A goroutine that has not ended has a step, and then fewer of them left.
on_stage-left :
    (s : Shared) (c : Check) (stage : Stage)
    → unended stage ≡ 1
    → left (on_stage s c stage).1.stage < left stage
unfolding on_stage left unended to_stage
on_stage-left s c launched h = omega arith
on_stage-left s c (counted n) h = omega arith
on_stage-left s c checking h = omega (arith, (ask-IsInside s c (s.endpoint c.home) _).steps)
on_stage-left s c (naming info) h = omega (arith, (on_named-IsInside s c info _).steps)
on_stage-left s c (comparing info) h =
    omega (arith, (compare-IsInside s c (s.endpoint c.home) info).steps)
on_stage-left s c (observing info) h = omega arith
on_stage-left s c passed h = omega arith
on_stage-left s c (counted_online n) h = omega arith
on_stage-left s c healthy h = omega arith
on_stage-left s c (failed error) h = omega arith
on_stage-left s c leaving h = omega arith
on_stage-left s c finished h = cc

all_left : List Check → ℕ
all_left [] = 0
all_left (c ∷ cs) = left c.stage + all_left cs

-- A goroutine whose step brings the others closer to their end
record Mover (s : Shared) (cs : List Check) : Type 0 where
  at : ℕ
  fewer : all_left (step at s cs).1 < all_left cs

unended-cases : (stage : Stage) → (unended stage ≡ 0) ⊎ (unended stage ≡ 1)
unfolding unended
unended-cases launched = inr refl
unended-cases (counted n) = inr refl
unended-cases checking = inr refl
unended-cases (naming info) = inr refl
unended-cases (comparing info) = inr refl
unended-cases (observing info) = inr refl
unended-cases passed = inr refl
unended-cases (counted_online n) = inr refl
unended-cases healthy = inr refl
unended-cases (failed error) = inr refl
unended-cases leaving = inr refl
unended-cases finished = inl refl

mover : (s : Shared) (cs : List Check) → (unfinished cs ≡ 0) ⊎ Mover s cs
unfolding unfinished step move all_left
mover s [] = inl refl
mover s (c ∷ cs) = elim (unended-cases c.stage) [
  | inr one ↦ inr (record { at = 0; fewer = omega (arith, on_stage-left s c c.stage one) })
  | inl none ↦ elim (mover s cs) [
    | inl none_left ↦ inl (omega arith)
    | inr m ↦ inr (record { at = suc m.at; fewer = omega (arith, m.fewer) })
  ]
]

-- The steps that are left, at most
abbrev distance : Round → ℕ
distance r = 12 * length r.pending + all_left r.running

-- A continuation after which wg.Wait has returned
pub record Ends (r : Round) : Type 0 where
  pub turns : List Turn
  pub waited : (play turns r).waited ≡ true

after : (t : Turn) (r : Round) → Ends (take_turn t r) → Ends r
unfolding play
after t r e = record { turns = t ∷ e.turns; waited = e.waited }

main_step-distance :
    (r : Round) (c : Check) (cs : List Check)
    → 12 * length cs + all_left (main_step r (c ∷ cs)).running
      < 12 * length (c ∷ cs) + all_left r.running
unfolding main_step all_left to_stage left
main_step-distance r c cs = omega arith

main_step-waited :
    (r : Round) (cs : List Check) → cs ≡ [] → r.shared.waiting ≡ 0 → (main_step r cs).waited ≡ true
unfolding main_step
main_step-waited r [] at h = ground arith
main_step-waited r (c ∷ cs) at h = cc

waited_at :
    (r : Round) → r.pending ≡ [] → r.shared.waiting ≡ 0 → (play [] (take_turn main r)).waited ≡ true
unfolding play take_turn
waited_at r at h = main_step-waited r r.pending at h

-- A turn after which fewer steps are left
record Closer (r : Round) : Type 0 where
  turn : Turn
  closer : distance (take_turn turn r) < distance r

next-pending :
    (r : Round) (cs : List Check)
    → r.pending ≡ cs
    → r.shared.waiting ≡ unfinished r.running
    → Ends r ⊎ Closer r
unfolding take_turn
next-pending r (c ∷ cs) at w =
    inr (record { turn = main; closer = rw at (main_step-distance r c cs) })
next-pending r [] at w = elim (mover r.shared r.running) [
  | inl none_left ↦
      inl (
        after main r (record { turns = []; waited = waited_at r at (omega (arith, w, none_left)) }))
  | inr m ↦ inr (record { turn = goroutine m.at; closer = omega (arith, m.fewer) })
]

Ends-within : (n : ℕ) (all : List Subject) (r : Round) → distance r ≤ n → Inv all r → Ends r
Ends-within zero all r h v = elim (next-pending r r.pending refl v.waiting) [
  | inl e ↦ e
  | inr c ↦ absurd (omega (arith, c.closer, h))
]
Ends-within (suc n) all r h v = elim (next-pending r r.pending refl v.waiting) [
  | inl e ↦ e
  | inr c ↦ after c.turn r (
      Ends-within n all (take_turn c.turn r) (omega (arith, c.closer, h))
        (take_turn-Inv all c.turn r v))
]

-- However the round went so far, main and the goroutines can go on so that wg.Wait returns: no
-- goroutine waits for another, and each one calls wg.Done.
pub play-Ends :
    (endpoints : ℕ → Endpoint) (checks : List Check) (ts : List Turn)
    → Ends (play ts (first_round endpoints checks))
play-Ends endpoints checks ts =
    let r = play ts (first_round endpoints checks) in
    Ends-within (distance r) (in_turn (map subject checks) []) r (omega arith) (
      play-Inv (in_turn (map subject checks) []) ts (first_round endpoints checks)
        (first_round-Inv endpoints checks))
