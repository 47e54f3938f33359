-- ===== src/Chain/Nodes/Solana.antt =====
-- (*solana.Chain).Healthcheck of internal/chain/solana/solana.go.
use haprovider.Prelude.{
  ℕ, List, [], ◌∷◌, ◌++◌, Option, if◌then◌else◌, is_empty, Text, text, text_eq,
}
use haprovider.Prelude.Outcome.{Outcome, done}
use haprovider.Rpc.Error.{failure}
use haprovider.Rpc.Message.{Request}
use haprovider.Rpc.Json.{Json}
use haprovider.Rpc.Batch.{BatchResponse, Result, ok, err}
use haprovider.Core.NodeInfo.{NodeInfo}
use haprovider.Chain.Nodes.{Checked, ◌>>=◌, new_request, report}

-- What json.Unmarshal does at the types of the results: a uint64, and the field solana-core of
-- solanaVersion, empty if it is absent.
pub record Decoder : Type 0 where
  pub to_uint : Text → Option ℕ
  pub to_version : Text → Option Text

-- genesisHash; a hash that it has no key for gives the empty name.
unfoldable pub network : Text → Text
unfolding text text_eq
network hash =
    if text_eq hash (text "5eykt4UsFv8P8NJdTREpY1vzqKqZKvdpKuc147dw2N9d")
    then text "mainnet"
    else if text_eq hash (text "4uhcVJyU9pJkvQyS88uRDiswHXSCkY3zQawwpjk2NsNY")
    then text "testnet"
    else if text_eq hash (text "EtWTRABZaYq6iMfeYKouRu166VU2xqa1wcaWoxPkrZBG")
    then text "devnet"
    else []

-- The end of getClientVersion and of checkHealth
unfoldable pub nonempty_version : Text → Result Text
unfolding text
nonempty_version v = if is_empty v then err (failure (text "no client version")) else ok v

unfoldable pub healthy : Text → Checked
unfolding text text_eq
healthy status =
    if text_eq status (text "ok")
    then ok tt
    else err (failure (text "node is not healthy: " ++ status))

module _ (json : Json) (decoder : Decoder) where
  unfoldable pub requests : List Request
  unfolding text
  requests =
      new_request json (text "ha_version") (text "getVersion") []
      ∷ new_request json (text "ha_chainId") (text "getGenesisHash") []
      ∷ new_request json (text "ha_height") (text "getBlockHeight") []
      ∷ new_request json (text "ha_health") (text "getHealth") []
      ∷ []

  -- Healthcheck, once the batch has been answered
  unfoldable pub node_info : BatchResponse → Outcome (Result NodeInfo)
  unfolding text network nonempty_version healthy
  node_info res = do
    reported ← report json decoder.to_version (text "ha_version") (text "getVersion failed: ") res
    version ← done (nonempty_version reported)
    hash ← report json json.string_of (text "ha_chainId") (text "getGenesisHash failed: ") res
    height ← report json decoder.to_uint (text "ha_height") (text "getBlockHeight failed: ") res
    status ← report json json.string_of (text "ha_health") (text "getHealth failed: ") res
    fine ← done (healthy status)
    done (ok (record { client_version = version; chain_id = network hash; block_height = height }))
