-- ===== src/Chain/Nodes/Tron.antt =====
-- (*tron.Chain).Healthcheck of internal/chain/tron/tron.go.
use haprovider.Prelude.{ℕ, List, [], ◌∷◌, ◌++◌, pos, ◌==◌, if◌then◌else◌, Text, text, decimal}
use haprovider.Prelude.Outcome.{Outcome, done}
use haprovider.Rpc.Error.{failure}
use haprovider.Rpc.Message.{Request}
use haprovider.Rpc.Json.{Json}
use haprovider.Rpc.Batch.{BatchResponse, Result, ok, err}
use haprovider.Core.NodeInfo.{NodeInfo}
use haprovider.Chain.Nodes.{◌>>=◌, new_request, report}
use haprovider.Chain.Nodes.Ethereum.{parsed_hex}

-- The name that chainIds has for a chain id
unfoldable pub network : ℕ → Result Text
unfolding text
network n =
    if n == 3448148188
    then ok (text "nile")
    else if n == 728126428
    then ok (text "mainnet")
    else if n == 2494104990
    then ok (text "shasta")
    else err (failure (text "unknown tron chain id: " ++ decimal (pos n)))

module _ (json : Json) where
  unfoldable pub requests : List Request
  unfolding text
  requests =
      new_request json (text "ha_clientVersion") (text "web3_clientVersion") (text "[]")
      ∷ new_request json (text "ha_chainId") (text "eth_chainId") []
      ∷ new_request json (text "ha_height") (text "eth_blockNumber") []
      ∷ []

  -- Healthcheck, once the batch has been answered
  unfoldable pub node_info : BatchResponse → Outcome (Result NodeInfo)
  unfolding text network
  node_info res = do
    version ←
        report json json.string_of (text "ha_clientVersion") (text "web3_clientVersion failed: ")
          res
    chain ← report json json.string_of (text "ha_chainId") (text "eth_chainId failed: ") res
    id ← done (parsed_hex (text "failed to parse chain id: ") chain)
    name ← done (network id)
    height ← report json json.string_of (text "ha_height") (text "eth_blockNumber failed: ") res
    n ← done (parsed_hex (text "failed to parse block height: ") height)
    done (ok (record { client_version = version; chain_id = name; block_height = n }))
