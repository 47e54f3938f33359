-- ===== src/Chain/Nodes/Bitcoin.antt =====
-- (*btc.Chain).Healthcheck of internal/chain/btc/btc.go.
use haprovider.Prelude.{
  ℕ, Bool, List, [], ◌∷◌, ◌++◌, Option, pos, ltb, if◌then◌else◌, Text, text, text_eq, decimal,
}
use haprovider.Prelude.Outcome.{Outcome, done}
use haprovider.Rpc.Error.{failure}
use haprovider.Rpc.Message.{Request}
use haprovider.Rpc.Json.{Json}
use haprovider.Rpc.Batch.{BatchResponse, Result, ok, err}
use haprovider.Core.NodeInfo.{NodeInfo}
use haprovider.Chain.Nodes.{Checked, ◌>>=◌, new_request, report}

-- `progress` is VerificationProgress as %.4f prints it.
pub record BlockchainInfo : Type 0 where
  pub blocks : ℕ
  pub headers : ℕ
  pub progress : Text

-- What json.Unmarshal does at the types of the results: blockchainInfo, the subversion of
-- networkInfo, and `loaded` of mempoolInfo.
pub record Decoder : Type 0 where
  pub to_blockchain_info : Text → Option BlockchainInfo
  pub to_subversion : Text → Option Text
  pub to_loaded : Text → Option Bool

-- genesisBlocks; a hash that it has no key for gives the empty name.
unfoldable pub network : Text → Text
unfolding text text_eq
network hash =
    if text_eq hash (text "000000000019d6689c085ae165831e934ff763ae46a2a6c172b3f1b60a8ce26f")
    then text "mainnet"
    else if text_eq hash (text "000000000933ea01ad0ee984209779baaec3ced07f354f05b0d0c3d9b07117560")
    then text "testnet3"
    else if text_eq hash (text "00000000da84f2bafbbc53dee25a72ae507ff4914b867c565be350b0da8bf043")
    then text "testnet4"
    else if text_eq hash (text "00000008819873e925422c1ff0f99f7cc9bbb232af63a077a480a3633bee1ef6")
    then text "signet"
    else []

unfoldable pub at_header_tip : BlockchainInfo → Checked
unfolding text decimal
at_header_tip i =
    if ltb i.blocks i.headers
    then err (
        failure (
          text "node is behind the header tip: blocks="
          ++ (decimal (pos i.blocks)
              ++ (text ", headers="
                  ++ (decimal (pos i.headers) ++ (text ", progress=" ++ i.progress))))))
    else ok tt

unfoldable pub mempool_loaded : Bool → Checked
unfolding text
mempool_loaded loaded = if loaded then ok tt else err (failure (text "mempool is not loaded"))

module _ (json : Json) (decoder : Decoder) where
  unfoldable pub requests : List Request
  unfolding text
  requests =
      new_request json (text "getnetworkinfo") (text "getnetworkinfo") (text "[]")
      ∷ new_request json (text "getblockhash") (text "getblockhash") (text "[0]")
      ∷ new_request json (text "getblockchaininfo") (text "getblockchaininfo") (text "[]")
      ∷ new_request json (text "getmempoolinfo") (text "getmempoolinfo") (text "[]")
      ∷ []

  -- Healthcheck, once the batch has been answered
  unfoldable pub node_info : BatchResponse → Outcome (Result NodeInfo)
  unfolding text network at_header_tip mempool_loaded
  node_info res = do
    info ←
        report json decoder.to_blockchain_info (text "getblockchaininfo")
          (text "failed to parse getblockchaininfo: ") res
    version ←
        report json decoder.to_subversion (text "getnetworkinfo")
          (text "failed to parse getnetworkinfo: ") res
    hash ←
        report json json.string_of (text "getblockhash") (text "failed to parse getblockhash: ") res
    at_tip ← done (at_header_tip info)
    loaded ←
        report json decoder.to_loaded (text "getmempoolinfo")
          (text "failed to parse getmempoolinfo: ") res
    mempool ← done (mempool_loaded loaded)
    done (
        ok (record {
          client_version = version;
          chain_id = network hash;
          block_height = info.blocks;
        }))
