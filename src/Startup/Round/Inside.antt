-- ===== src/Startup/Round/Inside.antt =====
-- The part of a goroutine of the first round that is healthcheck.Run leaves the counters and the wait
-- group alone (cmd/haprovider/main.go).
use haprovider.Prelude.{
  ℕ, ◌≡◌, ◌≤◌, refl, Bool, true, false, Option, none, some, if◌then◌else◌, arith,
}
use haprovider.Rpc.Error.{Error}
use haprovider.Rpc.Batch.{Result, ok, err}
use haprovider.Core.Endpoint.{Endpoint}
use haprovider.Core.NodeInfo.{NodeInfo}
use haprovider.Chain.{Chain}
use haprovider.Startup.Round.{
  Stage, Check, Shared, launched, counted, checking, naming, comparing, observing, passed,
  counted_online, healthy, failed, leaving, finished, to_stage, on_node, ask, on_named, compare,
}

-- How many steps a goroutine has left, at most
unfoldable pub left : Stage → ℕ
left launched = 11
left (counted n) = 10
left checking = 9
left (naming info) = 8
left (comparing info) = 7
left (observing info) = 6
left passed = 5
left (counted_online n) = 4
left healthy = 3
left (failed error) = 2
left leaving = 1
left finished = 0

-- In Run, or after it has failed
unfoldable pub in_run : Stage → Bool
in_run (naming info) = true
in_run (comparing info) = true
in_run (observing info) = true
in_run (failed error) = true
in_run _ = false

-- The work of Run from `s` and `c` to `r`, which has at most `n` steps left
pub record IsInside (s : Shared) (c : Check) (n : ℕ) (r : Shared × Check) : Type 0 where
  pub total : r.0.total ≡ s.total
  pub online : r.0.online ≡ s.online
  pub waiting : r.0.waiting ≡ s.waiting
  pub home : r.1.home ≡ c.home
  pub node : r.1.node ≡ c.node
  pub stage : in_run r.1.stage ≡ true
  pub steps : left r.1.stage ≤ n

on_node-IsInside : (s : Shared) (c : Check) (r : Result NodeInfo) → IsInside s c 8 (s, on_node c r)
unfolding on_node to_stage in_run left
on_node-IsInside s c (err error) = ground arith
on_node-IsInside s c (ok info) = ground arith

pub ask-IsInside :
    (s : Shared) (c : Check) (e : Endpoint) (o : Option Chain) → IsInside s c 8 (s, ask c e o)
unfolding ask to_stage in_run left
ask-IsInside s c e none = ground arith
ask-IsInside s c e (some chain) = on_node-IsInside s c c.node

pub on_named-IsInside :
    (s : Shared) (c : Check) (info : NodeInfo) (r : Endpoint × Option Error)
    → IsInside s c 7 (on_named s c info r)
unfolding on_named to_stage in_run left
on_named-IsInside s c info (e, some error) = ground arith
on_named-IsInside s c info (e, none) = ground arith

in_run-if :
    (behind : Bool) (error : Error) (info : NodeInfo)
    → let stage = if behind then failed error else observing info in
      (in_run stage ≡ true) × (left stage ≤ 6)
unfolding in_run left
in_run-if true error info = ground arith
in_run-if false error info = ground arith

pub compare-IsInside :
    (s : Shared) (c : Check) (e : Endpoint) (info : NodeInfo) → IsInside s c 6 (s, compare c e info)
unfolding compare
compare-IsInside s c e info = record {
  total = refl;
  online = refl;
  waiting = refl;
  home = refl;
  node = refl;
  stage = (in_run-if _ _ info).0;
  steps = (in_run-if _ _ info).1;
}
