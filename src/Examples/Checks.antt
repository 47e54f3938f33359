-- ===== src/Examples/Checks.antt =====
-- Health checks of two nodes of one endpoint.
use haprovider.Prelude.{ℕ, ◌≡◌, ◌≢◌, ◌↔◌, refl, [], ◌∷◌, none, some, text, arith}
use haprovider.Rpc.Error.{failure}
use haprovider.Rpc.Batch.{ok, err}
use haprovider.Core.Provider.{Provider, fresh_provider}
use haprovider.Core.NodeInfo.{NodeInfo}
use haprovider.Core.Endpoint.{Endpoint, Kind, fresh_endpoint, set_chain_id}
use haprovider.Chain.{new, ethereum}
use haprovider.Healthcheck.{is_behind, block_lag_tolerance, run}
use haprovider.Healthcheck.Tip.{IsGood, run-IsGood}
use haprovider.Healthcheck.Stall.{Check, checks, stalled-fails}

abbrev mainnet : Endpoint
mainnet = fresh_endpoint (text "mainnet") Kind.eth

abbrev limited : Provider
limited = record (fresh_provider (text "limited") [] []) { rate_limited_until = 90 }

abbrev at_height : ℕ → NodeInfo
at_height n = record { client_version = text "geth"; chain_id = text "1"; block_height = n }

abbrev failed : Check
failed = record { provider = limited; now = 6; node = err (failure []) }

is_eth : new Kind.eth ≡ some ethereum
unfolding new
is_eth = refl

tolerates : block_lag_tolerance mainnet ≡ 50
unfolding block_lag_tolerance
tolerates = refl

first_passes : (run limited mainnet 5 (ok (at_height 1000))).2 ≡ none
unfolding run new set_chain_id is_behind block_lag_tolerance
first_passes = refl

stalled-fails_example :
    (run limited
      (checks (run limited mainnet 5 (ok (at_height 1000))).1 (failed ∷ []))
      9
      (ok (at_height 900))).2
    ≢ none
stalled-fails_example =
    stalled-fails mainnet limited limited 5 9 (at_height 1000) (at_height 900) (failed ∷ []) is_eth
      (omega arith) (omega (arith, tolerates)) first_passes

run-IsGood_example :
    ((run limited mainnet 5 (ok (at_height 1000))).2 ≡ none) ↔ IsGood mainnet (at_height 1000)
run-IsGood_example = run-IsGood limited mainnet 5 (at_height 1000) is_eth (omega (arith, tolerates))
