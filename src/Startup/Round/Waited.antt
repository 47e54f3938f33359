-- ===== src/Startup/Round/Waited.antt =====
-- wg.Wait of the first round returns once every provider has been judged (cmd/haprovider/main.go).
use haprovider.Prelude.{
  ℕ, ◌≡◌, refl, sym, ap, ◌∙◌, Bool, true, false, ◌==◌, List, [], ◌∷◌, map, All, if◌then◌else◌,
  arith,
}
use haprovider.Rpc.Batch.{Result}
use haprovider.Core.Endpoint.{Endpoint}
use haprovider.Core.NodeInfo.{NodeInfo}
use haprovider.Startup.Round.{
  Stage, Check, Shared, launched, counted, checking, naming, comparing, observing, passed,
  counted_online, healthy, failed, leaving, finished, to_stage, Round, Turn, main, goroutine,
  main_step, take_turn, play, first_round,
}
use haprovider.Startup.Round.Moves.{
  unended, unfinished, Subject, subject, step-waiting, step-ends, step-subjects,
}
use haprovider.Startup.Round.Kept.{step-All}
use haprovider.Startup.Round.Judged.{IsSound, Knows, IsJudged, IsJudged-own, IsJudged-other}

-- The goroutines in the order of `running`, once main has started those that are left
unfoldable pub in_turn : List Subject → List Subject → List Subject
in_turn [] done = done
in_turn (x ∷ xs) done = in_turn xs (x ∷ done)

pub record Inv (all : List Subject) (r : Round) : Type 0 where
  pub waiting : r.shared.waiting ≡ unfinished r.running
  judged : All (IsJudged r.shared) r.running
  subjects : in_turn (map subject r.pending) (map subject r.running) ≡ all
  over : r.waited ≡ true → (r.pending ≡ []) × (unfinished r.running ≡ 0)

waiting-Inv :
    (all : List Subject) (r : Round) (b : Bool)
    → (r.shared.waiting == 0) ≡ b
    → r.pending ≡ []
    → Inv all r
    → Inv all (if b then record r { waited = true } else r)
waiting-Inv all r false h none_left v = v
waiting-Inv all r true h none_left v = record {
  waiting = v.waiting;
  judged = v.judged;
  subjects = v.subjects;
  over = λ w. (none_left, ground (arith, v.waiting));
}

main_step-Inv :
    (all : List Subject) (r : Round) (cs : List Check)
    → r.pending ≡ cs
    → Inv all r
    → Inv all (main_step r cs)
unfolding main_step to_stage unfinished unended in_turn Knows
main_step-Inv all r [] at v = waiting-Inv all r (r.shared.waiting == 0) refl at v
main_step-Inv all r (c ∷ cs) at v = record {
  waiting = omega (arith, v.waiting);
  judged = (tt, v.judged);
  subjects =
      sym (ap (λ (p : List Check). in_turn (map subject p) (map subject r.running)) at)
      ∙ v.subjects;
  over = λ h. let ended = (v.over h).0 in cc;
}

pub take_turn-Inv :
    (all : List Subject) (t : Turn) (r : Round) → Inv all r → Inv all (take_turn t r)
unfolding take_turn
take_turn-Inv all main r v = main_step-Inv all r r.pending refl v
take_turn-Inv all (goroutine i) r v = record {
  waiting = omega (arith, v.waiting, step-waiting i r.shared r.running);
  judged = step-All IsJudged IsJudged-own IsJudged-other i r.shared r.running v.judged;
  subjects = rw (step-subjects i r.shared r.running) v.subjects;
  over = λ h. ((v.over h).0, omega (arith, (v.over h).1, step-ends i r.shared r.running));
}

pub play-Inv : (all : List Subject) (ts : List Turn) (r : Round) → Inv all r → Inv all (play ts r)
unfolding play
play-Inv all [] r v = v
play-Inv all (t ∷ ts) r v = play-Inv all ts (take_turn t r) (take_turn-Inv all t r v)

unended-finished : (stage : Stage) → unended stage ≡ 0 → stage ≡ finished
unfolding unended
unended-finished launched h = cc
unended-finished (counted n) h = cc
unended-finished checking h = cc
unended-finished (naming info) h = cc
unended-finished (comparing info) h = cc
unended-finished (observing info) h = cc
unended-finished passed h = cc
unended-finished (counted_online n) h = cc
unended-finished healthy h = cc
unended-finished (failed error) h = cc
unended-finished leaving h = cc
unended-finished finished h = refl

-- A goroutine that is done, and what the node of its provider has shown if this is online
abbrev pub IsDone : Shared → Check → Type 0
IsDone s c = (c.stage ≡ finished) × (c.provider.online ≡ true → IsSound (s.endpoint c.home) c.node)

Knows-at :
    (e : Endpoint) (node : Result NodeInfo) (online : Bool) (stage : Stage)
    → stage ≡ finished
    → Knows e node online stage
    → Knows e node online finished
Knows-at e node online stage at k = rw (sym at) k

Knows-finished :
    (e : Endpoint) (node : Result NodeInfo) (online : Bool)
    → Knows e node online finished
    → online ≡ true
    → IsSound e node
unfolding Knows
Knows-finished e node online k = k

unfinished-IsDone :
    (s : Shared) (cs : List Check) → unfinished cs ≡ 0 → All (IsJudged s) cs → All (IsDone s) cs
unfolding unfinished
unfinished-IsDone s [] none_left all = tt
unfinished-IsDone s (c ∷ cs) none_left all =
    let at = unended-finished c.stage (omega arith) in
    (
      (
        at,
        Knows-finished (s.endpoint c.home) c.node c.provider.online
            (Knows-at (s.endpoint c.home) c.node c.provider.online c.stage at all.0),
      ),
      unfinished-IsDone s cs (omega arith) all.1,
    )

pub first_round-Inv :
    (endpoints : ℕ → Endpoint) (checks : List Check)
    → Inv (in_turn (map subject checks) []) (first_round endpoints checks)
unfolding first_round unfinished
first_round-Inv endpoints checks = record {
  waiting = refl;
  judged = tt;
  subjects = refl;
  over = λ h. cc;
}

-- Once wg.Wait has returned, whatever the order of the steps before, every provider has been judged
-- and its goroutine is done; and a provider that is online has a node that answered, whose height the
-- endpoint's tip is not below, and whose chain id is that of the endpoint, unless it is empty.
pub play-IsDone :
    (endpoints : ℕ → Endpoint) (checks : List Check) (ts : List Turn)
    → (play ts (first_round endpoints checks)).waited ≡ true
    → let r = play ts (first_round endpoints checks) in
      (map subject r.running ≡ in_turn (map subject checks) []) × All (IsDone r.shared) r.running
unfolding in_turn
play-IsDone endpoints checks ts over =
    let v =
      play-Inv (in_turn (map subject checks) []) ts (first_round endpoints checks)
        (first_round-Inv endpoints checks) in
    let r = play ts (first_round endpoints checks) in
    let ended = v.over over in
    (
      sym (ap (λ (p : List Check). in_turn (map subject p) (map subject r.running)) ended.0)
          ∙ v.subjects,
      unfinished-IsDone r.shared r.running ended.1 v.judged,
    )
