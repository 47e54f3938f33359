-- ===== src/Chain/Nodes/Synced.antt =====
-- What an Ethereum node that passes its health check has reported (internal/chain/eth/eth.go).
use haprovider.Prelude.{
  ℕ, ◌≡◌, refl, sym, ap, ◌∙◌, Bool, true, false, List, [], ◌∷◌, Option, none, some, Text, text,
  arith, pos, decimal,
}
use haprovider.Prelude.Outcome.{Outcome, done, panicked}
use haprovider.Rpc.Message.{Response, is_error}
use haprovider.Rpc.Json.{Json}
use haprovider.Rpc.Batch.{BatchResponse, Result, ok, err, get_response_by_id}
use haprovider.Core.NodeInfo.{NodeInfo}
use haprovider.Chain.Hex.{parse_hex_number}
use haprovider.Chain.Nodes.{>>=-ok, decode_result, report}
use haprovider.Chain.Nodes.Ethereum.{
  EthSyncing, Decoder, explained, parsed_hex, synced, no_errors, check_syncing, when_found,
  syncing_of, node_info,
}

done-injective {ℓ} : {A : Type ℓ} {a b : A} → done a ≡ done b → a ≡ b
done-injective h = cc

explained-ok : (what hex : Text) (r : Result ℕ) {n : ℕ} → explained what hex r ≡ ok n → r ≡ ok n
unfolding explained
explained-ok what hex (ok m) h = h
explained-ok what hex (err e) h = cc

synced-ok :
    (b : Result Bool) (p : Result EthSyncing) {u : Unit {0}} → synced b p ≡ ok u → b ≡ ok false
unfolding synced
synced-ok (ok false) p h = refl
synced-ok (ok true) p h = cc
synced-ok (err e) (ok s) h = cc
synced-ok (err e) (err f) h = cc

abbrev pub NoErrors : List (Option Response) → Type 0
NoErrors [] = Unit
NoErrors (none ∷ rs) = ⊥
NoErrors (some r ∷ rs) = (is_error r ≡ false) × NoErrors rs

module _ (json : Json) (decoder : Decoder) where
  no_errors-NoErrors :
      (rs : List (Option Response)) {u : Unit {0}}
      → no_errors json decoder rs ≡ done (ok u)
      → NoErrors rs
  unfolding no_errors
  no_errors-NoErrors [] h = tt
  no_errors-NoErrors (none ∷ rs) h = cc
  no_errors-NoErrors (some r ∷ rs) h = ground (arith, no_errors-NoErrors rs)

  when_found-ok :
      (o : Outcome (Option Response)) {u : Unit {0}}
      → when_found json decoder o ≡ done (ok u)
      → (r : Option Response) × (o ≡ done r) × (decode_result json decoder.to_bool r ≡ ok false)
  unfolding when_found check_syncing
  when_found-ok panicked h = cc
  when_found-ok (done r) h = (r, refl, synced-ok _ _ (done-injective h))

  -- What an Ethereum node that passes has reported.
  pub record IsSynced (res : BatchResponse) (info : NodeInfo) : Type 0 where
    pub no_errors : NoErrors res.responses
    pub chain : Text
    pub chain_number : ℕ
    pub chain_reported :
        report json json.string_of (text "ha_chainId") (text "eth_chainId failed: ") res
        ≡ done (ok chain)
    pub chain_parsed : parse_hex_number chain ≡ ok chain_number
    pub chain_id : info.chain_id ≡ decimal (pos chain_number)
    pub height : Text
    pub height_reported :
        report json json.string_of (text "ha_height") (text "eth_blockNumber failed: ") res
        ≡ done (ok height)
    pub height_parsed : parse_hex_number height ≡ ok info.block_height
    pub syncing : Option Response
    pub syncing_found : get_response_by_id json (text "ha_syncing") res.responses ≡ done syncing
    pub not_syncing : decode_result json decoder.to_bool syncing ≡ ok false

  -- An Ethereum node passes its own checks only if none of its responses is an error and it reports
  -- that it is not syncing; the chain id taken from it is the decimal form of the hexadecimal number
  -- that it reports, and the height is the number that it reports.
  pub node_info-IsSynced :
      (res : BatchResponse) (info : NodeInfo)
      → node_info json decoder res ≡ done (ok info)
      → IsSynced res info
  unfolding node_info syncing_of parsed_hex
  node_info-IsSynced res info h =
      let (a, plain, h1) = >>=-ok (no_errors json decoder res.responses) _ h in
      let (v, _, h2) =
        >>=-ok
          (report json json.string_of (text "ha_clientVersion") (text "web3_clientVersion failed: ")
            res)
          _ h1 in
      let (c, chain, h3) =
        >>=-ok (report json json.string_of (text "ha_chainId") (text "eth_chainId failed: ") res) _
          h2 in
      let (i, id, h4) = >>=-ok (done (parsed_hex (text "failed to parse chain id: ") c)) _ h3 in
      let (t, height, h5) =
        >>=-ok (report json json.string_of (text "ha_height") (text "eth_blockNumber failed: ") res)
          _ h4 in
      let (n, number, h6) =
        >>=-ok (done (parsed_hex (text "failed to parse block height: ") t)) _ h5 in
      let (s, sync, h7) = >>=-ok (syncing_of json decoder res) _ h6 in
      let (r, found, idle) = when_found-ok _ sync in
      let same_height : info.block_height ≡ n = cc in
      record {
        no_errors = no_errors-NoErrors res.responses plain;
        chain = c;
        chain_number = i;
        chain_reported = chain;
        chain_parsed = explained-ok (text "failed to parse chain id: ") c _ (done-injective id);
        chain_id = cc;
        height = t;
        height_reported = height;
        height_parsed =
            explained-ok (text "failed to parse block height: ") t _ (done-injective number)
            ∙ ap ok (sym same_height);
        syncing = r;
        syncing_found = found;
        not_syncing = idle;
      }
