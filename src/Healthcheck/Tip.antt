-- ===== src/Healthcheck/Tip.antt =====
-- Block lag and the tip of an endpoint (internal/healthcheck/healthcheck.go).
use haprovider.Prelude.{
  ℕ, ◌+◌, ◌^◌, ◌≡◌, ◌≤◌, ◌<◌, ◌⊎◌, ◌↔◌, if◌then◌else◌, [], none, some, text_eq_iff, arith,
}
use Prim.Native.Nat.{max}
use haprovider.Rpc.Batch.{ok}
use haprovider.Core.Provider.{Provider}
use haprovider.Core.NodeInfo.{NodeInfo}
use haprovider.Core.Endpoint.{Endpoint, set_chain_id, observe_block}
use haprovider.Chain.{Chain, new}
use haprovider.Healthcheck.{is_behind, block_lag_tolerance, is_none, run}

-- What a health check passes on.
pub record IsGood (e : Endpoint) (info : NodeInfo) : Type 0 where
  pub same_chain : (e.chain_id ≡ []) ⊎ (e.chain_id ≡ info.chain_id)
  pub in_time : e.highest_block ≤ info.block_height + block_lag_tolerance e

module _ (p : Provider) (e : Endpoint) (now : ℕ) (info : NodeInfo) {c : Chain}
    (known : new e.kind ≡ some c) where
  -- A node whose height stays below 2^64 together with the tolerance passes exactly when its chain
  -- id is the endpoint's, or the first one, and it lags the tip by at most the tolerance.
  pub run-IsGood :
      info.block_height + block_lag_tolerance e < 2 ^ 64
      → ((run p e now (ok info)).2 ≡ none) ↔ IsGood e info
  unfolding run set_chain_id is_behind block_lag_tolerance
  run-IsGood small = (
    λ (h : (run p e now (ok info)).2 ≡ none). ground (arith, text_eq_iff e.chain_id info.chain_id),
    λ (h : IsGood e info). ground (arith, text_eq_iff e.chain_id info.chain_id),
  )

  -- The tip never falls, and only a check that passes raises it, to the node's height.
  pub run-tip : (run p e now (ok info)).1.highest_block ≡ (
      if is_none (run p e now (ok info)).2
      then max e.highest_block info.block_height
      else e.highest_block)
  unfolding run set_chain_id is_behind observe_block
  run-tip = ground (arith, text_eq_iff e.chain_id info.chain_id)
