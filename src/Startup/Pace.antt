-- ===== src/Startup/Pace.antt =====
-- The health checks of a program that starts are never run without a pause (cmd/haprovider/main.go and
-- internal/healthcheck/healthcheck.go).
use haprovider.Prelude.{
  ℕ, zero, suc, ◌*◌, ◌≡◌, ◌<◌, refl, Bool, Option, none, some, ℤ, pos, negsuc, ltb, if◌then◌else◌,
  Text, arith,
}
use haprovider.Rpc.Batch.{Result, ok, err}
use haprovider.Core.Provider.{Provider}
use haprovider.Core.Endpoint.{Endpoint}
use haprovider.Core.NodeInfo.{NodeInfo}
use haprovider.Core.Time.{second, minute}
use haprovider.Healthcheck.{is_none, run, wake_time, worker_round}
use haprovider.Healthcheck.Cycle.{run_once-online, worker_round-waits}
use haprovider.Startup.{Given, Settings, checked_interval, with_interval, settings}

checked-positive : (given : Text) (o : Option ℤ) (n : ℕ) → checked_interval given o ≡ ok n → 0 < n
unfolding checked_interval
checked-positive given none n h = cc
checked-positive given (some (negsuc m)) n h = cc
checked-positive given (some (pos zero)) n h = cc
checked-positive given (some (pos (suc m))) n h = ground arith

delay-positive :
    (passed : Bool) (attempt interval : ℕ)
    → 0 < interval
    → 0 < (
        if passed
        then interval
        else (if ltb attempt 5
            then 10 * second
            else (if ltb attempt 10 then 30 * second else minute)))
delay-positive passed attempt interval h = ground arith

module _ (parse_duration : Text → Option ℤ) (getenv : Text → Text) where
  with_interval-interval :
      (flags config : Given) (given : Text) (o : Option ℤ) (s : Settings)
      → with_interval parse_duration getenv flags config (checked_interval given o) ≡ ok s
      → 0 < s.interval
  unfolding with_interval checked_interval
  with_interval-interval flags config given o s h = of_check (checked_interval given o) refl h
    where
      of_check :
          (r : Result ℕ)
          → checked_interval given o ≡ r
          → with_interval parse_duration getenv flags config r ≡ ok s
          → 0 < s.interval
      of_check (err e) c h' = cc
      of_check (ok n) c h' =
          let same : n ≡ s.interval = cc in rw same at (checked-positive given o n c)

  settings-interval :
      (flags config : Given) (s : Settings)
      → settings parse_duration getenv flags config ≡ ok s
      → 0 < s.interval
  unfolding settings
  settings-interval flags config s h = with_interval-interval flags config _ _ s h

  later :
      (p : Provider) (e : Endpoint) (interval now : ℕ) (node : Result NodeInfo)
      → 0 < interval
      → now < (worker_round p e interval now node).2
  unfolding worker_round
  later p e interval now node h =
      let (online, delay) = run_once-online p e interval (wake_time p now) node in
      let (waits, limited, ends) = worker_round-waits p e interval now node in
      let pause = rw (← delay) at (
        delay-positive (is_none (run p e (wake_time p now) node).2)
          (run p e (wake_time p now) node).0.attempt interval h) in
      omega arith

  -- With the settings that the program starts with, each round of a worker ends later than it began,
  -- whatever the health check finds: no provider is checked without a pause.
  pub settings-worker_round :
      (flags config : Given) (s : Settings) (p : Provider) (e : Endpoint) (now : ℕ)
      (node : Result NodeInfo)
      → settings parse_duration getenv flags config ≡ ok s
      → now < (worker_round p e s.interval now node).2
  settings-worker_round flags config s p e now node h =
      later p e s.interval now node (settings-interval flags config s h)
