-- ===== src/Chain/Nodes/Sound.antt =====
-- What a node that passes its health check has reported (internal/chain/{eth,btc}).
use haprovider.Prelude.{◌≡◌, ◌≤◌, Bool, true, text, arith}
use haprovider.Prelude.Outcome.{done}
use haprovider.Rpc.Json.{Json}
use haprovider.Rpc.Batch.{BatchResponse, ok}
use haprovider.Core.NodeInfo.{NodeInfo}
use haprovider.Chain.Nodes.{>>=-ok, report}
use haprovider.Chain.Nodes.Bitcoin.{BlockchainInfo, at_header_tip, mempool_loaded}

at_header_tip-ok :
    (i : BlockchainInfo) {u : Unit {0}} → at_header_tip i ≡ ok u → i.headers ≤ i.blocks
unfolding at_header_tip
at_header_tip-ok i h = ground arith

mempool_loaded-ok : (b : Bool) {u : Unit {0}} → mempool_loaded b ≡ ok u → b ≡ true
unfolding mempool_loaded
mempool_loaded-ok b h = ground arith

done-injective {ℓ} : {A : Type ℓ} {a b : A} → done a ≡ done b → a ≡ b
done-injective h = cc

module _ (json : Json) (decoder : haprovider.Chain.Nodes.Bitcoin.Decoder)
    (res : BatchResponse) where
  -- What a Bitcoin node that passes has reported.
  pub record IsBitcoinTip (info : NodeInfo) : Type 0 where
    pub chain : BlockchainInfo
    pub reported :
        report json decoder.to_blockchain_info
          (text "getblockchaininfo")
          (text "failed to parse getblockchaininfo: ")
          res
        ≡ done (ok chain)
    pub at_tip : chain.headers ≤ chain.blocks
    pub height : info.block_height ≡ chain.blocks
    pub loaded :
        report json decoder.to_loaded
          (text "getmempoolinfo")
          (text "failed to parse getmempoolinfo: ")
          res
        ≡ done (ok true)

  -- A Bitcoin node passes its own checks only if it has every block of which it has the header and
  -- its mempool is loaded, and the height taken from it is its number of blocks.
  pub node_info-IsBitcoinTip :
      (info : NodeInfo)
      → haprovider.Chain.Nodes.Bitcoin.node_info json decoder res ≡ done (ok info)
      → IsBitcoinTip info
  unfolding haprovider.Chain.Nodes.Bitcoin.node_info
  node_info-IsBitcoinTip info h =
      let (i, reported, h1) =
        >>=-ok
          (report json decoder.to_blockchain_info (text "getblockchaininfo")
            (text "failed to parse getblockchaininfo: ") res)
          _ h in
      let (v, _, h2) =
        >>=-ok
          (report json decoder.to_subversion (text "getnetworkinfo")
            (text "failed to parse getnetworkinfo: ") res)
          _ h1 in
      let (g, _, h3) =
        >>=-ok
          (report json json.string_of (text "getblockhash") (text "failed to parse getblockhash: ")
            res)
          _ h2 in
      let (u, tip, h4) = >>=-ok (done (at_header_tip i)) _ h3 in
      let (l, loaded, h5) =
        >>=-ok
          (report json decoder.to_loaded (text "getmempoolinfo")
            (text "failed to parse getmempoolinfo: ") res)
          _ h4 in
      let (w, full, h6) = >>=-ok (done (mempool_loaded l)) _ h5 in
      record {
        chain = i;
        reported = reported;
        at_tip = at_header_tip-ok i (done-injective tip);
        height = cc;
        loaded = rw (mempool_loaded-ok l (done-injective full)) at loaded;
      }
