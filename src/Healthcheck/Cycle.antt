-- ===== src/Healthcheck/Cycle.antt =====
-- The health-check cycle of one provider, and the checks of all providers of an endpoint
-- (internal/healthcheck/healthcheck.go).
use haprovider.Prelude.{ℕ, ◌*◌, ◌≡◌, ◌≤◌, if◌then◌else◌, ltb, arith}
use haprovider.Rpc.Batch.{Result, ok, err}
use haprovider.Core.Time.{second, minute}
use haprovider.Core.Provider.{
  Provider, mark_unhealthy, mark_healthy, set_highest_block, set_client_version,
}
use haprovider.Core.NodeInfo.{NodeInfo}
use haprovider.Core.Endpoint.{Endpoint}
use haprovider.Healthcheck.{is_none, run, run_once, wake_time, worker_round}

-- After a cycle the provider is online exactly if the check passed. The next cycle comes after the
-- interval if it did, and otherwise after 10 seconds to a minute, the longer the more attempts have
-- failed: from the fifth attempt on after 30 seconds, from the tenth on after a minute.
pub run_once-online :
    (p : Provider) (e : Endpoint) (interval now : ℕ) (node : Result NodeInfo)
    → let (q, e', delay) = run_once p e interval now node in
      let (checked, e'', error) = run p e now node in
      (q.online ≡ is_none error)
      × (delay ≡ (
          if is_none error
          then interval
          else (if ltb checked.attempt 5
              then 10 * second
              else (if ltb checked.attempt 10 then 30 * second else minute))))
unfolding run_once mark_unhealthy mark_healthy
run_once-online p e interval now node = ground arith

-- A round of the worker never checks a provider before its rate limit is over, and it comes to an
-- end: the next round is due no earlier than the check.
pub worker_round-waits :
    (p : Provider) (e : Endpoint) (interval now : ℕ) (node : Result NodeInfo)
    → (now ≤ wake_time p now)
      × (p.rate_limited_until ≤ wake_time p now)
      × (wake_time p now ≤ (worker_round p e interval now node).2)
unfolding wake_time worker_round
worker_round-waits p e interval now node = (ground arith, ground arith, ground arith)

-- The highest block of a provider never falls, whatever its node reports.
pub run-highest_block :
    (p : Provider) (e : Endpoint) (now : ℕ) (node : Result NodeInfo)
    → p.highest_block ≤ (run p e now node).0.highest_block
unfolding run set_highest_block set_client_version
run-highest_block p e now (err error) = ground arith
run-highest_block p e now (ok info) = ground arith
