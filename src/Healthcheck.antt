-- ===== src/Healthcheck.antt =====
-- internal/healthcheck/healthcheck.go. What the chain's own Healthcheck returns for a provider is an
-- argument; `now` is what time.Now reads in a call.
pub mod Tip
pub mod Cycle
pub mod Stall
pub mod Full
use haprovider.Prelude.{
  ℕ, ◌+◌, ◌-◌, ◌*◌, ◌%◌, ◌^◌, Bool, true, false, ◌++◌, Option, none, some, ℤ, pos, negsuc, ltb,
  if◌then◌else◌, Text, text, decimal,
}
use haprovider.Rpc.Error.{Error, failure}
use haprovider.Rpc.Batch.{Result, ok, err}
use haprovider.Core.Time.{second, minute}
use haprovider.Core.Provider.{
  Provider, mark_healthy, mark_unhealthy, set_highest_block, set_client_version,
}
use haprovider.Core.NodeInfo.{NodeInfo}
use haprovider.Core.Endpoint.{Endpoint, Kind, set_chain_id, observe_block}
use haprovider.Chain.{Chain, new}

abbrev pub is_none {ℓ} : {A : Type ℓ} → Option A → Bool
is_none none = true
is_none (some a) = false

-- defaultBlockLagTolerance; a missing key gives 0.
abbrev pub default_block_lag_tolerance : Kind → ℕ
default_block_lag_tolerance Kind.eth = 50
default_block_lag_tolerance Kind.solana = 50
default_block_lag_tolerance Kind.tron = 10
default_block_lag_tolerance Kind.btc = 0
default_block_lag_tolerance (Kind.unknown name) = 0

abbrev at_least_zero : ℤ → ℕ
at_least_zero (pos n) = n
at_least_zero (negsuc n) = 0

-- The tolerance of an endpoint: its own, raised to 0, or the default of its kind
unfoldable pub block_lag_tolerance : Endpoint → ℕ
block_lag_tolerance e = elim e.block_lag_tolerance [
  | none ↦ default_block_lag_tolerance e.kind
  | some n ↦ at_least_zero n
]

-- `height + uint64(tolerance) < tip` over uint64
unfoldable pub is_behind : ℕ → ℕ → ℕ → Bool
is_behind height tolerance tip = ltb ((height + tolerance) % 2 ^ 64) tip

unfoldable pub behind_error : ℕ → ℕ → Error
unfolding text decimal
behind_error height tip = failure (
    text "node is behind: currentBlock="
    ++ (decimal (pos height)
        ++ (text ", highestBlock="
            ++ (decimal (pos tip) ++ (text " missing=" ++ decimal (pos (tip - height)))))))

-- The end of Run, once the chain id is accepted
unfoldable pub check_lag : Provider → Endpoint → ℕ → Provider × Endpoint × Option Error
unfolding is_behind block_lag_tolerance
check_lag p e height =
    let q = if ltb p.highest_block height then set_highest_block p height else p in
    if is_behind height (block_lag_tolerance e) e.highest_block
    then (q, e, some (behind_error height e.highest_block))
    else (q, observe_block e height, none)

unfoldable pub check_chain_id :
    Provider → Endpoint × Option Error → ℕ → Provider × Endpoint × Option Error
check_chain_id p (e, some error) height = (p, e, some error)
check_chain_id p (e, none) height = check_lag p e height

unfoldable pub check_node :
    Provider → Endpoint → ℕ → Result NodeInfo → Provider × Endpoint × Option Error
check_node p e now (err error) = (p, e, some error)
check_node p e now (ok info) =
    check_chain_id (set_client_version p info.client_version now) (set_chain_id e info.chain_id)
      info.block_height

unfoldable pub kind_text : Kind → Text
unfolding text
kind_text Kind.eth = text "eth"
kind_text Kind.solana = text "solana"
kind_text Kind.tron = text "tron"
kind_text Kind.btc = text "btc"
kind_text (Kind.unknown name) = name

unfoldable pub run_on :
    Option Chain → Provider → Endpoint → ℕ → Result NodeInfo → Provider × Endpoint × Option Error
unfolding check_node check_chain_id check_lag text kind_text
run_on none p e now node =
    (p, e, some (failure (text "unknown endpoint kind: " ++ kind_text e.kind)))
run_on (some c) p e now node = check_node p e now node

-- Run: `none` is the nil error of a healthy provider.
unfoldable pub run : Provider → Endpoint → ℕ → Result NodeInfo → Provider × Endpoint × Option Error
unfolding run_on
run p e now node = run_on (new e.kind) p e now node

-- nextAttemptDelay
unfoldable pub next_attempt_delay : ℕ → ℕ
next_attempt_delay attempt =
    if ltb attempt 5 then 10 * second else (if ltb attempt 10 then 30 * second else 1 * minute)

-- runOnce after Run: the provider's new state and the wait before the next cycle
unfoldable pub after_run : Provider × Endpoint × Option Error → ℕ → ℕ → Provider × Endpoint × ℕ
after_run (p, e, none) interval now = (mark_healthy p now, e, interval)
after_run (p, e, some error) interval now =
    (mark_unhealthy p error now, e, next_attempt_delay p.attempt)

unfoldable pub run_once : Provider → Endpoint → ℕ → ℕ → Result NodeInfo → Provider × Endpoint × ℕ
unfolding after_run next_attempt_delay
run_once p e interval now node = after_run (run p e now node) interval now

-- One round of Worker: a rate limit that is not over yet is slept out first. The time of the check
-- and the time of the round after it.
unfoldable pub wake_time : Provider → ℕ → ℕ
wake_time p now = if ltb now p.rate_limited_until then p.rate_limited_until else now

unfoldable pub worker_round :
    Provider → Endpoint → ℕ → ℕ → Result NodeInfo → Provider × Endpoint × ℕ
unfolding wake_time
worker_round p e interval now node =
    let at = wake_time p now in
    let (q, e', delay) = run_once p e interval at node in (q, e', at + delay)
