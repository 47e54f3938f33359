-- ===== src/Chain/Nodes/Ask.antt =====
-- The Healthcheck method of a chain: the batch is sent to the provider, and its answer is read.
use haprovider.Prelude.{◌≡◌, ap, ◌∙◌, ℕ, true, List, ℤ, Text}
use haprovider.Prelude.Outcome.{Outcome, done, panicked}
use haprovider.Rpc.Message.{Request}
use haprovider.Rpc.Json.{Json}
use haprovider.Rpc.Batch.{BatchResponse, Result, ok, err}
use haprovider.Core.Provider.{Provider}
use haprovider.Core.Endpoint.{Endpoint}
use haprovider.Core.NodeInfo.{NodeInfo}
use haprovider.Httpx.{Upstream, send_rpc_batch_request}
use haprovider.Chain.{Chain, ethereum, solana, tron, bitcoin}
use haprovider.Chain.Nodes.Ethereum
use haprovider.Chain.Nodes.Solana
use haprovider.Chain.Nodes.Tron
use haprovider.Chain.Nodes.Bitcoin

-- What json.Unmarshal does at the types of the results.
pub record Decoders : Type 0 where
  pub of_ethereum : Ethereum.Decoder
  pub of_solana : Solana.Decoder
  pub of_bitcoin : Bitcoin.Decoder

module _ (json : Json) (decoders : Decoders) where
  requests_of : Chain → List Request
  unfolding Ethereum.requests Solana.requests Tron.requests Bitcoin.requests
  requests_of ethereum = Ethereum.requests json decoders.of_ethereum
  requests_of solana = Solana.requests json decoders.of_solana
  requests_of tron = Tron.requests json
  requests_of bitcoin = Bitcoin.requests json decoders.of_bitcoin

  read : Chain → BatchResponse → Outcome (Result NodeInfo)
  unfolding Ethereum.node_info Solana.node_info Tron.node_info Bitcoin.node_info
  read ethereum = Ethereum.node_info json decoders.of_ethereum
  read solana = Solana.node_info json decoders.of_solana
  read tron = Tron.node_info json
  read bitcoin = Bitcoin.node_info json decoders.of_bitcoin

  with_info : Provider → Outcome (Result NodeInfo) → Outcome (Provider × Result NodeInfo)
  with_info p panicked = panicked
  with_info p (done r) = done (p, r)

  on_batch :
      Chain → Outcome (Provider × Result BatchResponse) → Outcome (Provider × Result NodeInfo)
  unfolding read with_info
  on_batch c panicked = panicked
  on_batch c (done (p, err e)) = done (p, err e)
  on_batch c (done (p, ok res)) = with_info p (read c res)

  -- Healthcheck: the provider may take up a rate limit from the answer.
  unfoldable pub healthcheck :
      Chain → (ℤ → Text) → Endpoint → Upstream → Provider → ℕ → Outcome (Provider × Result NodeInfo)
  unfolding requests_of on_batch
  healthcheck c show e upstream p now =
      on_batch c (send_rpc_batch_request json show e upstream p (requests_of c) true now)

  with_info-ok :
      (p q : Provider) (o : Outcome (Result NodeInfo)) {info : NodeInfo}
      → with_info p o ≡ done (q, ok info)
      → (p ≡ q) × (o ≡ done (ok info))
  unfolding with_info
  with_info-ok p q panicked h = cc
  with_info-ok p q (done r) h = (cc, cc)

  on_batch-ok :
      (c : Chain) (q : Provider) (o : Outcome (Provider × Result BatchResponse)) {info : NodeInfo}
      → on_batch c o ≡ done (q, ok info)
      → (answers : BatchResponse) × (o ≡ done (q, ok answers)) × (read c answers ≡ done (ok info))
  unfolding on_batch
  on_batch-ok c q panicked h = cc
  on_batch-ok c q (done (p, err e)) h = cc
  on_batch-ok c q (done (p, ok res)) h =
      let (same, read_ok) = with_info-ok p q (read c res) h in (res, cc, read_ok)

  -- An Ethereum node that passes has answered the batch, and its answers have passed.
  pub healthcheck-ethereum :
      (show : ℤ → Text) (e : Endpoint) (upstream : Upstream) (p q : Provider) (now : ℕ)
      {info : NodeInfo}
      → healthcheck ethereum show e upstream p now ≡ done (q, ok info)
      → (answers : BatchResponse) × (send_rpc_batch_request json show e upstream p
            (Ethereum.requests json decoders.of_ethereum)
            true
            now
          ≡ done (q, ok answers))
        × (Ethereum.node_info json decoders.of_ethereum answers ≡ done (ok info))
  unfolding healthcheck requests_of read
  healthcheck-ethereum show e upstream p q now h = on_batch-ok ethereum q _ h

  -- An Ethereum node that answers the batch, and whose answers pass, passes.
  pub ethereum-healthcheck :
      (show : ℤ → Text) (e : Endpoint) (upstream : Upstream) (p q : Provider) (now : ℕ)
      {info : NodeInfo} {answers : BatchResponse}
      → send_rpc_batch_request json show e upstream p
          (Ethereum.requests json decoders.of_ethereum)
          true
          now
        ≡ done (q, ok answers)
      → Ethereum.node_info json decoders.of_ethereum answers ≡ done (ok info)
      → healthcheck ethereum show e upstream p now ≡ done (q, ok info)
  unfolding healthcheck requests_of read on_batch with_info
  ethereum-healthcheck show e upstream p q now {answers = answers} sent reads =
      ap (on_batch ethereum) sent ∙ ap (with_info q) reads
