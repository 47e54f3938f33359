-- ===== src/Startup/Round/Moves.antt =====
-- What one step of a goroutine of the first round does to the wait group (cmd/haprovider/main.go).
use haprovider.Prelude.{ℕ, zero, suc, ◌+◌, ◌≡◌, ◌≤◌, refl, ap, true, List, [], ◌∷◌, map, arith}
use haprovider.Rpc.Batch.{Result}
use haprovider.Core.NodeInfo.{NodeInfo}
use haprovider.Startup.Round.{
  Stage, Check, Shared, launched, counted, checking, naming, comparing, observing, passed,
  counted_online, healthy, failed, leaving, finished, to_stage, on_stage, move, step,
}
use haprovider.Startup.Round.Inside.{
  in_run, IsInside, ask-IsInside, on_named-IsInside, compare-IsInside,
}

-- 1 for a goroutine that has not called wg.Done
unfoldable pub unended : Stage → ℕ
unended finished = 0
unended _ = 1

unfoldable pub unfinished : List Check → ℕ
unfinished [] = 0
unfinished (c ∷ cs) = unended c.stage + unfinished cs

-- A goroutine's provider, by its endpoint and by what its node says
abbrev pub Subject : Type 0
Subject = ℕ × Result NodeInfo

abbrev pub subject : Check → Subject
subject c = (c.home, c.node)

unended-in_run : (stage : Stage) → in_run stage ≡ true → unended stage ≡ 1
unfolding unended in_run
unended-in_run launched h = refl
unended-in_run (counted n) h = refl
unended-in_run checking h = refl
unended-in_run (naming info) h = refl
unended-in_run (comparing info) h = refl
unended-in_run (observing info) h = refl
unended-in_run passed h = refl
unended-in_run (counted_online n) h = refl
unended-in_run healthy h = refl
unended-in_run (failed error) h = refl
unended-in_run leaving h = refl
unended-in_run finished h = cc

-- A step calls wg.Done when it ends its goroutine, and leaves what the goroutine is about.
record IsMove (s : Shared) (c : Check) (stage : Stage) (r : Shared × Check) : Type 0 where
  waiting : unended stage ≤ s.waiting → r.0.waiting + unended stage ≡ s.waiting + unended r.1.stage
  ends : unended r.1.stage ≤ unended stage
  same : subject r.1 ≡ subject c

inside-IsMove :
    (s : Shared) (c : Check) (stage : Stage) (n : ℕ) (r : Shared × Check)
    → unended stage ≡ 1
    → IsInside s c n r
    → IsMove s c stage r
inside-IsMove s c stage n r one i = record {
  waiting = λ h. omega (arith, i.waiting, unended-in_run r.1.stage i.stage);
  ends = omega (arith, one, unended-in_run r.1.stage i.stage);
  same = rw (i.home, i.node) refl;
}

on_stage-IsMove :
    (s : Shared) (c : Check) (stage : Stage)
    → c.stage ≡ stage
    → IsMove s c stage (on_stage s c stage)
unfolding on_stage unended to_stage
on_stage-IsMove s c launched at = record { waiting = λ h. refl; ends = omega arith; same = refl }
on_stage-IsMove s c (counted n) at = record { waiting = λ h. refl; ends = omega arith; same = refl }
on_stage-IsMove s c checking at =
    inside-IsMove s c checking _ _ refl (ask-IsInside s c (s.endpoint c.home) _)
on_stage-IsMove s c (naming info) at =
    inside-IsMove s c (naming info) _ _ refl (on_named-IsInside s c info _)
on_stage-IsMove s c (comparing info) at =
    inside-IsMove s c (comparing info) _ _ refl (compare-IsInside s c (s.endpoint c.home) info)
on_stage-IsMove s c (observing info) at = record {
  waiting = λ h. refl;
  ends = omega arith;
  same = refl;
}
on_stage-IsMove s c passed at = record { waiting = λ h. refl; ends = omega arith; same = refl }
on_stage-IsMove s c (counted_online n) at = record {
  waiting = λ h. refl;
  ends = omega arith;
  same = refl;
}
on_stage-IsMove s c healthy at = record { waiting = λ h. refl; ends = omega arith; same = refl }
on_stage-IsMove s c (failed error) at = record {
  waiting = λ h. refl;
  ends = omega arith;
  same = refl;
}
on_stage-IsMove s c leaving at = record {
  waiting = λ h. omega (arith, h);
  ends = omega arith;
  same = refl;
}
on_stage-IsMove s c finished at = record {
  waiting = λ h. rw at refl;
  ends = rw at (omega arith);
  same = refl;
}

move-IsMove : (s : Shared) (c : Check) → IsMove s c c.stage (move s c)
unfolding move
move-IsMove s c = on_stage-IsMove s c c.stage refl

pub step-waiting :
    (i : ℕ) (s : Shared) (cs : List Check)
    → unfinished cs ≤ s.waiting
    → (step i s cs).0.waiting + unfinished cs ≡ s.waiting + unfinished (step i s cs).1
unfolding step unfinished
step-waiting i s [] h = refl
step-waiting zero s (c ∷ cs) h = omega (arith, h, (move-IsMove s c).waiting)
step-waiting (suc i) s (c ∷ cs) h = omega (arith, h, step-waiting i s cs)

pub step-ends : (i : ℕ) (s : Shared) (cs : List Check) → unfinished (step i s cs).1 ≤ unfinished cs
unfolding step unfinished
step-ends i s [] = omega arith
step-ends zero s (c ∷ cs) = omega (arith, (move-IsMove s c).ends)
step-ends (suc i) s (c ∷ cs) = omega (arith, step-ends i s cs)

pub step-subjects :
    (i : ℕ) (s : Shared) (cs : List Check) → map subject (step i s cs).1 ≡ map subject cs
unfolding step
step-subjects i s [] = refl
step-subjects zero s (c ∷ cs) = ap (λ x. x ∷ map subject cs) (move-IsMove s c).same
step-subjects (suc i) s (c ∷ cs) = ap (λ (xs : List Subject). subject c ∷ xs) (step-subjects i s cs)
