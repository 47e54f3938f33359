-- ===== src/Healthcheck/Full/Ethereum.antt =====
-- What has brought an Ethereum provider online (internal/healthcheck/healthcheck.go,
-- internal/chain/eth/eth.go).
use haprovider.Prelude.{
  ℕ, ◌+◌, ◌^◌, ◌≡◌, ◌≤◌, ◌<◌, ◌⊎◌, inl, inr, ◌∙◌, sym, ap, refl, true, none, some, ℤ, Text, arith,
}
use haprovider.Prelude.Outcome.{Outcome, done, panicked}
use haprovider.Rpc.Json.{Json}
use haprovider.Rpc.Batch.{BatchResponse, Result, ok, err}
use haprovider.Core.Provider.{Provider}
use haprovider.Core.Endpoint.{Endpoint, Kind}
use haprovider.Core.NodeInfo.{NodeInfo}
use haprovider.Httpx.{Upstream, send_rpc_batch_request}
use haprovider.Chain.{ethereum, new}
use haprovider.Chain.Nodes.Ethereum.{requests, node_info}
use haprovider.Chain.Nodes.Ask.{Decoders, healthcheck, healthcheck-ethereum, ethereum-healthcheck}
use haprovider.Chain.Nodes.Synced.{IsSynced, node_info-IsSynced}
use haprovider.Healthcheck.{block_lag_tolerance, is_none, run, run_once}
use haprovider.Healthcheck.Tip.{IsGood, run-IsGood}
use haprovider.Healthcheck.Cycle.{run_once-online}
use haprovider.Healthcheck.Full.{asked, concluded, cycle}

done-injective {ℓ} : {A : Type ℓ} {a b : A} → done a ≡ done b → a ≡ b
done-injective h = cc

new-ethereum : (e : Endpoint) → e.kind ≡ Kind.eth → new e.kind ≡ some ethereum
unfolding new
new-ethereum e kind = rw kind refl

compare_cases : (n : ℕ) → (2 ^ 64 ≤ n) ⊎ (n < 2 ^ 64)
compare_cases n = ground arith

-- A cycle that leaves its provider online has been told a node's data, and Run has passed it.
run_once-passed :
    (p : Provider) (e : Endpoint) (interval now : ℕ) (node : Result NodeInfo)
    → (run_once p e interval now node).0.online ≡ true
    → (info : NodeInfo) × (node ≡ ok info) × ((run p e now (ok info)).2 ≡ none)
unfolding run
run_once-passed p e interval now (err error) online =
    absurd (ground (arith, (run_once-online p e interval now (err error)).0))
run_once-passed p e interval now (ok info) online =
    (info, refl, ground (arith, (run_once-online p e interval now (ok info)).0))

-- Run has found the chain and the lag to be right, where the sum of height and tolerance fits.
fits-IsGood :
    (p : Provider) (e : Endpoint) (now : ℕ) (info : NodeInfo)
    → e.kind ≡ Kind.eth
    → (run p e now (ok info)).2 ≡ none
    → (2 ^ 64 ≤ info.block_height + block_lag_tolerance e) ⊎ IsGood e info
fits-IsGood p e now info kind passed =
    elim (compare_cases (info.block_height + block_lag_tolerance e)) [
      | inl over ↦ inl over
      | inr small ↦
          inr ((run-IsGood p e now info {c = ethereum} (new-ethereum e kind) small).0 passed)
    ]

module _ (json : Json) (decoders : Decoders) (show : ℤ → Text) (e : Endpoint)
    (upstream : Upstream) where
  -- What lies behind an Ethereum provider that a cycle leaves online.
  pub record IsChecked (p : Provider) (sent : ℕ) : Type 0 where
    pub after : Provider
    pub answers : BatchResponse
    pub info : NodeInfo
    pub answered :
        send_rpc_batch_request json show e upstream p (requests json decoders.of_ethereum) true sent
        ≡ done (after, ok answers)
    pub in_sync : IsSynced json decoders.of_ethereum answers info
    pub fits : (2 ^ 64 ≤ info.block_height + block_lag_tolerance e) ⊎ IsGood e info

  concluded-online :
      (p q : Provider) (f : Endpoint) (interval sent now delay : ℕ)
      (o : Outcome (Provider × Result NodeInfo))
      → e.kind ≡ Kind.eth
      → o ≡ healthcheck json decoders ethereum show e upstream p sent
      → concluded json decoders show e interval now o ≡ done (q, f, delay)
      → q.online ≡ true
      → IsChecked p sent
  unfolding concluded
  concluded-online p q f interval sent now delay panicked kind same h online = cc
  concluded-online p q f interval sent now delay (done (a, node)) kind same h online =
      let up : run_once a e interval now node ≡ (q, f, delay) = done-injective h in
      let ran : (run_once a e interval now node).0.online ≡ q.online = ap (λ x. x.0.online) up in
      let (info, told, passed) = run_once-passed a e interval now node (ran ∙ online) in
      let (answers, sent_ok, read_ok) =
        healthcheck-ethereum json decoders show e upstream p a sent {info = info}
          (sym same ∙ ap (λ r. done (a, r)) told) in
      record {
        after = a;
        answers = answers;
        info = info;
        answered = sent_ok;
        in_sync = node_info-IsSynced json decoders.of_ethereum answers info read_ok;
        fits = fits-IsGood a e now info kind passed;
      }

  -- A cycle leaves an Ethereum provider online only if the node has answered the batch of four
  -- requests, none of the answers is an error, and it reports that it is not syncing, a chain id
  -- that is the endpoint's or the first one, and a height that is behind the tip by no more than
  -- the tolerance, unless the height together with the tolerance exceeds 2^64 - 1.
  pub cycle-IsChecked :
      (p q : Provider) (f : Endpoint) (interval sent now delay : ℕ)
      → e.kind ≡ Kind.eth
      → cycle json decoders show e upstream interval sent now p ≡ done (q, f, delay)
      → q.online ≡ true
      → IsChecked p sent
  unfolding cycle asked
  cycle-IsChecked p q f interval sent now delay kind h online =
      concluded-online p q f interval sent now delay
        (asked json decoders show (new e.kind) e upstream p sent) kind
        (ap (λ c. asked json decoders show c e upstream p sent) (new-ethereum e kind)) h online

  -- An Ethereum node that answers the batch, whose answers pass its own checks, whose chain id is the
  -- endpoint's or the first one, and which lags the tip by at most the tolerance, is online after one
  -- cycle, whatever state its provider was in, and the next one comes after the interval. The sum of
  -- height and tolerance is below 2^64.
  pub cycle-recovers :
      (p a : Provider) (answers : BatchResponse) (info : NodeInfo) (interval sent now : ℕ)
      → e.kind ≡ Kind.eth
      → send_rpc_batch_request json show e upstream p (requests json decoders.of_ethereum) true sent
        ≡ done (a, ok answers)
      → node_info json decoders.of_ethereum answers ≡ done (ok info)
      → info.block_height + block_lag_tolerance e < 2 ^ 64
      → IsGood e info
      → (q : Provider) × (f : Endpoint) × (cycle json decoders show e upstream interval sent now p
          ≡ done (q, f, interval))
        × (q.online ≡ true)
  unfolding cycle asked concluded
  cycle-recovers p a answers info interval sent now kind answered reads small good =
      let passed = (run-IsGood a e now info {c = ethereum} (new-ethereum e kind) small).1 good in
      let (up, wait) = run_once-online a e interval now (ok info) in
      let told = ethereum-healthcheck json decoders show e upstream p a sent answered reads in
      let after = run_once a e interval now (ok info) in
      let begun = ap (λ c. asked json decoders show c e upstream p sent) (new-ethereum e kind) in
      let runs = ap (concluded json decoders show e interval now) (begun ∙ told) in
      let on_time : after.2 ≡ interval = wait ∙ rw passed refl in
      (
        after.0,
        after.1,
        runs ∙ ap (λ d. done (after.0, after.1, d)) on_time,
        up ∙ ap is_none passed,
      )
