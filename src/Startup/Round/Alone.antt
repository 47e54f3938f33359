-- ===== src/Startup/Round/Alone.antt =====
-- A goroutine of the first round that no other disturbs does a cycle of health checks
-- (cmd/haprovider/main.go and internal/healthcheck/healthcheck.go).
use haprovider.Prelude.{
  ℕ, zero, suc, ◌+◌, ◌≡◌, refl, sym, ◌∙◌, Bool, true, false, Option, none, some, if◌then◌else◌,
}
use haprovider.Rpc.Error.{Error}
use haprovider.Rpc.Batch.{Result, ok, err}
use haprovider.Core.Provider.{Provider, mark_healthy, mark_unhealthy, set_client_version}
use haprovider.Core.Endpoint.{Endpoint, set_chain_id, observe_block}
use haprovider.Core.NodeInfo.{NodeInfo}
use haprovider.Chain.{Chain, new}
use haprovider.Healthcheck.{run, run_once, run_on, check_node, check_chain_id, check_lag, after_run}
use haprovider.Startup.Round.{
  Check, Shared, launched, checking, naming, comparing, observing, passed, failed, finished, put,
  to_stage, on_node, ask, on_named, compare, on_stage, move,
}
use haprovider.Startup.Round.Judged.{put-same}

-- The steps of a goroutine by itself
pub moves : ℕ → Shared × Check → Shared × Check
moves zero r = r
moves (suc n) r = moves n (move r.0 r.1)

-- By itself, a goroutine ends with this provider and this endpoint.
pub record EndsWith (home : ℕ) (r : Shared × Check) (p : Provider) (e : Endpoint) : Type 0 where
  pub steps : ℕ
  pub finished : (moves steps r).1.stage ≡ finished
  pub provider : (moves steps r).1.provider ≡ p
  pub endpoint : (moves steps r).0.endpoint home ≡ e

-- By itself, a goroutine ends as a cycle does after Run has returned `o`.
abbrev EndsAs : ℕ → Shared × Check → ℕ → Provider × Endpoint × Option Error → Type 0
EndsAs home r now o = EndsWith home r (after_run o 0 now).0 (after_run o 0 now).1

first :
    {home : ℕ} {r : Shared × Check} {p : Provider} {e : Endpoint}
    → EndsWith home (move r.0 r.1) p e
    → EndsWith home r p e
unfolding moves
first l = record {
  steps = suc l.steps;
  finished = l.finished;
  provider = l.provider;
  endpoint = l.endpoint;
}

passed-EndsWith :
    (home : ℕ) (s : Shared) (c : Check) (e : Endpoint)
    → s.endpoint home ≡ e
    → EndsWith home (s, to_stage c passed) (mark_healthy c.provider c.now) e
unfolding moves move on_stage to_stage
passed-EndsWith home s c e h = record { steps = 4; finished = refl; provider = refl; endpoint = h }

failed-EndsWith :
    (home : ℕ) (s : Shared) (c : Check) (error : Error) (e : Endpoint)
    → s.endpoint home ≡ e
    → EndsWith home (s, to_stage c (failed error)) (mark_unhealthy c.provider error c.now) e
unfolding moves move on_stage to_stage
failed-EndsWith home s c error e h = record {
  steps = 2;
  finished = refl;
  provider = refl;
  endpoint = h;
}

observing-EndsWith :
    (s : Shared) (c : Check) (info : NodeInfo)
    → EndsWith c.home
        (s, to_stage c (observing info))
        (mark_healthy c.provider c.now)
        (observe_block (s.endpoint c.home) info.block_height)
unfolding move on_stage to_stage
observing-EndsWith s c info =
    let e = observe_block (s.endpoint c.home) info.block_height in
    first (
      passed-EndsWith c.home (record s { endpoint = put c.home e s.endpoint }) c e
        (put-same c.home e s.endpoint))

compared-EndsAs :
    (s : Shared) (c : Check) (info : NodeInfo) (behind : Bool) (error : Error)
    → EndsAs c.home
        (s, to_stage c (if behind then failed error else observing info))
        c.now
        (if behind
          then (c.provider, s.endpoint c.home, some error)
          else (c.provider, observe_block (s.endpoint c.home) info.block_height, none))
unfolding after_run
compared-EndsAs s c info true error = failed-EndsWith c.home s c error (s.endpoint c.home) refl
compared-EndsAs s c info false error = observing-EndsWith s c info

comparing-EndsAs :
    (s : Shared) (c : Check) (info : NodeInfo)
    → EndsAs c.home
        (s, to_stage c (comparing info))
        c.now
        (check_lag c.provider (s.endpoint c.home) info.block_height)
unfolding move on_stage to_stage compare check_lag
comparing-EndsAs s c info = first (compared-EndsAs s (record c { provider = _ }) info _ _)

comparing-at :
    (s : Shared) (c : Check) (info : NodeInfo) (e : Endpoint)
    → s.endpoint c.home ≡ e
    → EndsAs c.home
        (s, to_stage c (comparing info))
        c.now
        (check_lag c.provider e info.block_height)
comparing-at s c info e h = rw (sym h) (comparing-EndsAs s c info)

named-EndsAs :
    (s : Shared) (c : Check) (info : NodeInfo) (r : Endpoint × Option Error)
    → EndsAs c.home (on_named s c info r) c.now (check_chain_id c.provider r info.block_height)
unfolding on_named check_chain_id after_run to_stage
named-EndsAs s c info (e, some error) =
    failed-EndsWith c.home (record s { endpoint = put c.home e s.endpoint }) c error e
      (put-same c.home e s.endpoint)
named-EndsAs s c info (e, none) =
    comparing-at (record s { endpoint = put c.home e s.endpoint }) c info e
      (put-same c.home e s.endpoint)

asked-EndsAs :
    (s : Shared) (c : Check) (node : Result NodeInfo)
    → EndsAs c.home (s, on_node c node) c.now (check_node c.provider (s.endpoint c.home) c.now node)
unfolding on_node check_node to_stage move on_stage after_run
asked-EndsAs s c (err error) = failed-EndsWith c.home s c error (s.endpoint c.home) refl
asked-EndsAs s c (ok info) =
    let c' = record c {
      provider = set_client_version c.provider info.client_version c.now;
      stage = naming info;
    } in
    first (named-EndsAs s c' info (set_chain_id (s.endpoint c.home) info.chain_id))

checking-EndsAs :
    (s : Shared) (c : Check) (chain : Option Chain)
    → EndsAs c.home
        (s, ask c (s.endpoint c.home) chain)
        c.now
        (run_on chain c.provider (s.endpoint c.home) c.now c.node)
unfolding ask run_on after_run to_stage
checking-EndsAs s c none = failed-EndsWith c.home s c _ (s.endpoint c.home) refl
checking-EndsAs s c (some chain) = asked-EndsAs s c c.node

after_run-any :
    (o : Provider × Endpoint × Option Error) (interval now : ℕ)
    → ((after_run o interval now).0 ≡ (after_run o 0 now).0)
      × ((after_run o interval now).1 ≡ (after_run o 0 now).1)
unfolding after_run
after_run-any (p, e, none) interval now = (refl, refl)
after_run-any (p, e, some error) interval now = (refl, refl)

-- A goroutine of the first round that runs by itself leaves its provider and the endpoint as a cycle of
-- the worker does.
pub launched-EndsWith :
    (s : Shared) (c : Check) (interval : ℕ)
    → let r = run_once c.provider (s.endpoint c.home) interval c.now c.node in
      EndsWith c.home (s, to_stage c launched) r.0 r.1
unfolding run_once run move on_stage to_stage
launched-EndsWith s c interval =
    let s' = record s { total = s.total + 1 } in
    let same = after_run-any (run c.provider (s.endpoint c.home) c.now c.node) interval c.now in
    let l =
      first
        (first (first (checking-EndsAs s' (to_stage c checking) (new (s.endpoint c.home).kind)))) in
    record {
      steps = l.steps;
      finished = l.finished;
      provider = l.provider ∙ sym same.0;
      endpoint = l.endpoint ∙ sym same.1;
    }
