-- ===== src/Startup/Round/Lost.antt =====
-- A race of the first round: increments of `total` can be lost (cmd/haprovider/main.go).
use haprovider.Prelude.{
  ℕ, zero, suc, ◌≡◌, ◌≤◌, refl, ap, Bool, true, false, inl, inr, List, [], ◌∷◌, ◌++◌, All, length,
  if◌then◌else◌, ◌==◌, arith,
}
use haprovider.Core.Endpoint.{Endpoint}
use haprovider.Startup.Round.{
  Stage, Check, Shared, launched, counted, checking, naming, comparing, observing, passed,
  counted_online, healthy, failed, leaving, finished, to_stage, on_stage, move, step, Round, Turn,
  main, goroutine, main_step, take_turn, play, first_round,
}
use haprovider.Startup.Round.Inside.{
  in_run, IsInside, ask-IsInside, on_named-IsInside, compare-IsInside,
}
use haprovider.Startup.Round.Kept.{step-All}
use haprovider.Startup.Round.Ended.{play-Ends}
use haprovider.Startup.Round.Counted.{play-IsReport}

-- A goroutine that has read `total`, as 0
IsLate : Stage → Type 0
IsLate launched = ⊥
IsLate (counted n) = n ≡ 0
IsLate _ = Unit

in_run-IsLate : (stage : Stage) → in_run stage ≡ true → IsLate stage
unfolding in_run IsLate
in_run-IsLate launched h = cc
in_run-IsLate (counted n) h = cc
in_run-IsLate checking h = tt
in_run-IsLate (naming info) h = tt
in_run-IsLate (comparing info) h = tt
in_run-IsLate (observing info) h = tt
in_run-IsLate passed h = tt
in_run-IsLate (counted_online n) h = tt
in_run-IsLate healthy h = tt
in_run-IsLate (failed error) h = tt
in_run-IsLate leaving h = tt
in_run-IsLate finished h = tt

-- A step of such a goroutine from `s`: what it is after, and that `total` stays at most 1
record StaysLate (s : Shared) (r : Shared × Check) : Type 0 where
  late : IsLate r.1.stage
  total : s.total ≤ 1 → r.0.total ≤ 1

inside-StaysLate :
    (s : Shared) (c : Check) (n : ℕ) (r : Shared × Check) → IsInside s c n r → StaysLate s r
inside-StaysLate s c n r i = record {
  late = in_run-IsLate r.1.stage i.stage;
  total = λ h. omega (arith, h, i.total);
}

IsLate-at : (stage stage' : Stage) → stage ≡ stage' → IsLate stage' → IsLate stage
IsLate-at stage stage' at l = rw at l

finished-IsLate : (c : Check) → c.stage ≡ finished → IsLate c.stage
unfolding IsLate
finished-IsLate c at = IsLate-at c.stage finished at tt

on_stage-StaysLate :
    (s : Shared) (c : Check) (stage : Stage)
    → c.stage ≡ stage
    → IsLate stage
    → StaysLate s (on_stage s c stage)
unfolding on_stage to_stage IsLate
on_stage-StaysLate s c launched at l = absurd l
on_stage-StaysLate s c (counted n) at l = record { late = tt; total = λ h. omega (arith, l) }
on_stage-StaysLate s c checking at l =
    inside-StaysLate s c _ _ (ask-IsInside s c (s.endpoint c.home) _)
on_stage-StaysLate s c (naming info) at l = inside-StaysLate s c _ _ (on_named-IsInside s c info _)
on_stage-StaysLate s c (comparing info) at l =
    inside-StaysLate s c _ _ (compare-IsInside s c (s.endpoint c.home) info)
on_stage-StaysLate s c (observing info) at l = record { late = tt; total = λ h. h }
on_stage-StaysLate s c passed at l = record { late = tt; total = λ h. h }
on_stage-StaysLate s c (counted_online n) at l = record { late = tt; total = λ h. h }
on_stage-StaysLate s c healthy at l = record { late = tt; total = λ h. h }
on_stage-StaysLate s c (failed error) at l = record { late = tt; total = λ h. h }
on_stage-StaysLate s c leaving at l = record { late = tt; total = λ h. h }
on_stage-StaysLate s c finished at l = record { late = finished-IsLate c at; total = λ h. h }

move-StaysLate : (s : Shared) (c : Check) → IsLate c.stage → StaysLate s (move s c)
unfolding move
move-StaysLate s c l = on_stage-StaysLate s c c.stage refl l

step-total :
    (i : ℕ) (s : Shared) (cs : List Check)
    → All (λ c. IsLate c.stage) cs
    → s.total ≤ 1
    → (step i s cs).0.total ≤ 1
unfolding step
step-total i s [] all h = h
step-total zero s (c ∷ cs) all h = (move-StaysLate s c all.0).total h
step-total (suc i) s (c ∷ cs) all h = step-total i s cs all.1 h

-- main has started every goroutine, and each of these has read `total` as 0.
record IsLost (r : Round) : Type 0 where
  pending : r.pending ≡ []
  late : All (λ c. IsLate c.stage) r.running
  total : r.shared.total ≤ 1

waiting-IsLost :
    (r : Round) (b : Bool) → IsLost r → IsLost (if b then record r { waited = true } else r)
waiting-IsLost r true l = record { pending = l.pending; late = l.late; total = l.total }
waiting-IsLost r false l = l

main_step-IsLost : (r : Round) (cs : List Check) → cs ≡ [] → IsLost r → IsLost (main_step r cs)
unfolding main_step
main_step-IsLost r [] at l = waiting-IsLost r (r.shared.waiting == 0) l
main_step-IsLost r (c ∷ cs) at l = cc

take_turn-IsLost : (t : Turn) (r : Round) → IsLost r → IsLost (take_turn t r)
unfolding take_turn
take_turn-IsLost main r l = main_step-IsLost r r.pending l.pending l
take_turn-IsLost (goroutine i) r l = record {
  pending = l.pending;
  late =
      step-All (λ s c. IsLate c.stage) (λ s c k. (move-StaysLate s c k).late) (λ s c d k. k) i
        r.shared r.running l.late;
  total = step-total i r.shared r.running l.late l.total;
}

play-IsLost : (ts : List Turn) (r : Round) → IsLost r → IsLost (play ts r)
unfolding play
play-IsLost [] r l = l
play-IsLost (t ∷ ts) r l = play-IsLost ts (take_turn t r) (take_turn-IsLost t r l)

-- main starts each goroutine, which reads `total` at once.
reads : List Check → List Turn
reads [] = []
reads (c ∷ cs) = main ∷ goroutine 0 ∷ reads cs

started : Round → Check → List Check → Round
unfolding take_turn main_step step move on_stage to_stage
started r c cs = take_turn (goroutine 0) (main_step r (c ∷ cs))

started-pending : (r : Round) (c : Check) (cs : List Check) → (started r c cs).pending ≡ cs
unfolding started
started-pending r c cs = refl

started-IsLate :
    (r : Round) (c : Check) (cs : List Check)
    → All (λ d. IsLate d.stage) r.running
    → r.shared.total ≡ 0
    → All (λ d. IsLate d.stage) (started r c cs).running
unfolding started IsLate
started-IsLate r c cs all h = (h, all)

started-total :
    (r : Round) (c : Check) (cs : List Check)
    → r.shared.total ≡ 0
    → (started r c cs).shared.total ≡ 0
unfolding started
started-total r c cs h = h

main_first :
    (r : Round) (c : Check) (cs : List Check)
    → r.pending ≡ c ∷ cs
    → take_turn (goroutine 0) (take_turn main r) ≡ started r c cs
unfolding started take_turn
main_first r c cs at = ap (λ (ds : List Check). take_turn (goroutine 0) (main_step r ds)) at

play-first :
    (r : Round) (c : Check) (cs : List Check) (ts : List Turn)
    → r.pending ≡ c ∷ cs
    → IsLost (play ts (started r c cs))
    → IsLost (play (main ∷ goroutine 0 ∷ ts) r)
unfolding play
play-first r c cs ts at l = rw (ap (play ts) (main_first r c cs at), play) l

play-reads :
    (cs : List Check) (r : Round)
    → r.pending ≡ cs
    → All (λ c. IsLate c.stage) r.running
    → r.shared.total ≡ 0
    → IsLost (play (reads cs) r)
unfolding play reads
play-reads [] r at all h = record { pending = at; late = all; total = omega (arith, h) }
play-reads (c ∷ cs) r at all h = play-first r c cs (reads cs) at (
    play-reads cs (started r c cs) (started-pending r c cs) (started-IsLate r c cs all h)
      (started-total r c cs h))

play-append : (ts us : List Turn) (r : Round) → play (ts ++ us) r ≡ play us (play ts r)
unfolding play
play-append [] us r = refl
play-append (t ∷ ts) us r = play-append ts us (take_turn t r)

reads-IsLost :
    (endpoints : ℕ → Endpoint) (checks : List Check)
    → IsLost (play (reads checks) (first_round endpoints checks))
unfolding first_round
reads-IsLost endpoints checks = play-reads checks (first_round endpoints checks) refl tt refl

-- A run of the round after which main reports one provider
pub record CountsOne (r : Round) : Type 0 where
  pub turns : List Turn
  pub waited : (play turns r).waited ≡ true
  pub total : (play turns r).shared.total ≡ 1

-- However many providers there are, if there is one, the round can go so that main counts just one:
-- goroutines that read `total` before another has written it lose its increment.
pub play-CountsOne :
    (endpoints : ℕ → Endpoint) (checks : List Check)
    → 1 ≤ length checks
    → CountsOne (first_round endpoints checks)
play-CountsOne endpoints checks some =
    let first = first_round endpoints checks in
    let e = play-Ends endpoints checks (reads checks) in
    let l = play-IsLost e.turns _ (reads-IsLost endpoints checks) in
    let same = play-append (reads checks) e.turns first in
    let over : (play (reads checks ++ e.turns) first).waited ≡ true = rw same e.waited in
    let report = play-IsReport endpoints checks (reads checks ++ e.turns) over in
    let most : (play (reads checks ++ e.turns) first).shared.total ≤ 1 = rw same l.total in
    record {
      turns = reads checks ++ e.turns;
      waited = over;
      total = elim report.some_total [
        | inl none ↦ absurd (omega (arith, none, some))
        | inr least ↦ omega (arith, least, most)
      ];
    }
