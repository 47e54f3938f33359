-- ===== src/Chain/Nodes/Ethereum.antt =====
-- (*Ethereum).Healthcheck of internal/chain/eth/eth.go.
use haprovider.Prelude.{
  ℕ, Bool, true, false, List, [], ◌∷◌, ◌++◌, Option, none, some, pos, if◌then◌else◌, Text, text,
  decimal,
}
use haprovider.Prelude.Outcome.{Outcome, done, panicked}
use haprovider.Rpc.Error.{error_message, failure}
use haprovider.Rpc.Message.{Request, Response, is_error, get_error}
use haprovider.Rpc.Json.{Json}
use haprovider.Rpc.Batch.{BatchResponse, Result, ok, err, get_response_by_id}
use haprovider.Core.NodeInfo.{NodeInfo}
use haprovider.Chain.Hex.{parse_hex_number}
use haprovider.Chain.Nodes.{Checked, ◌>>=◌, new_request, decode_result, report}

-- ethSyncing
pub record EthSyncing : Type 0 where
  pub current_block : Text
  pub highest_block : Text

-- What json.Unmarshal does at the types of the results.
pub record Decoder : Type 0 where
  pub to_bool : Text → Option Bool
  pub to_syncing : Text → Option EthSyncing

-- The error `failed to parse ...: %v (%s)`
unfoldable pub explained : Text → Text → Result ℕ → Result ℕ
unfolding text
explained what hex (ok n) = ok n
explained what hex (err e) =
    err (failure (what ++ (error_message e ++ (text " (" ++ (hex ++ text ")")))))

unfoldable pub parsed_hex : Text → Text → Result ℕ
unfolding explained
parsed_hex what hex = explained what hex (parse_hex_number hex)

abbrev or_zero : Result ℕ → ℕ
or_zero (ok n) = n
or_zero (err e) = 0

-- The progress object of eth_syncing is an error in any case.
unfoldable pub not_synced : Result EthSyncing → Checked
unfolding text
not_synced (err e) = err (failure (text "eth_syncing failed: " ++ error_message e))
not_synced (ok s) = err (
    failure (
      text "node is not synced: currentBlock="
      ++ (decimal (pos (or_zero (parse_hex_number s.current_block)))
          ++ (text ", highestBlock="
              ++ decimal (pos (or_zero (parse_hex_number s.highest_block)))))))

unfoldable pub synced : Result Bool → Result EthSyncing → Checked
unfolding not_synced text
synced (ok false) progress = ok tt
synced (ok true) progress = err (failure (text "node is syncing"))
synced (err e) progress = not_synced progress

module _ (json : Json) (decoder : Decoder) where
  -- The four requests
  unfoldable pub requests : List Request
  unfolding text
  requests =
      new_request json (text "ha_clientVersion") (text "web3_clientVersion") (text "[]")
      ∷ new_request json (text "ha_chainId") (text "eth_chainId") []
      ∷ new_request json (text "ha_height") (text "eth_blockNumber") []
      ∷ new_request json (text "ha_syncing") (text "eth_syncing") []
      ∷ []

  -- The loop that returns the first error response
  unfoldable pub no_errors : List (Option Response) → Outcome Checked
  no_errors [] = done (ok tt)
  no_errors (none ∷ rs) = panicked
  no_errors (some r ∷ rs) =
      let rest = no_errors rs in
      if is_error r then done (err (failure (get_error json.error_of r).1)) else rest

  -- checkSyncing
  unfoldable pub check_syncing : Option Response → Checked
  unfolding synced decode_result
  check_syncing r =
      synced (decode_result json decoder.to_bool r) (decode_result json decoder.to_syncing r)

  unfoldable pub when_found : Outcome (Option Response) → Outcome Checked
  when_found panicked = panicked
  when_found (done r) = done (check_syncing r)

  unfoldable pub syncing_of : BatchResponse → Outcome Checked
  unfolding text when_found
  syncing_of res = when_found (get_response_by_id json (text "ha_syncing") res.responses)

  -- Healthcheck, once the batch has been answered
  unfoldable pub node_info : BatchResponse → Outcome (Result NodeInfo)
  unfolding text no_errors syncing_of report parsed_hex
  node_info res = do
    none_failed ← no_errors res.responses
    version ←
        report json json.string_of (text "ha_clientVersion") (text "web3_clientVersion failed: ")
          res
    chain ← report json json.string_of (text "ha_chainId") (text "eth_chainId failed: ") res
    id ← done (parsed_hex (text "failed to parse chain id: ") chain)
    height ← report json json.string_of (text "ha_height") (text "eth_blockNumber failed: ") res
    n ← done (parsed_hex (text "failed to parse block height: ") height)
    in_sync ← syncing_of res
    done (ok (record { client_version = version; chain_id = decimal (pos id); block_height = n }))
