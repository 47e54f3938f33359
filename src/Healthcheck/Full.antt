-- ===== src/Healthcheck/Full.antt =====
-- Whole cycles: runOnce with Run and the Healthcheck of the chain inside it
-- (internal/healthcheck/healthcheck.go, internal/chain).
pub mod Ethereum
use haprovider.Prelude.{ℕ, List, [], ◌∷◌, Option, none, some, ℤ, Text, text}
use haprovider.Prelude.Outcome.{Outcome, done, panicked}
use haprovider.Rpc.Error.{failure}
use haprovider.Rpc.Json.{Json}
use haprovider.Rpc.Batch.{Result, err}
use haprovider.Core.Provider.{Provider}
use haprovider.Core.Endpoint.{Endpoint}
use haprovider.Core.NodeInfo.{NodeInfo}
use haprovider.Httpx.{Upstream}
use haprovider.Chain.{Chain, new}
use haprovider.Chain.Nodes.Ask.{Decoders, healthcheck}
use haprovider.Healthcheck.{run_once}

module _ (json : Json) (decoders : Decoders) (show : ℤ → Text) where
  -- What Run gets from the node. An endpoint of an unknown kind has no chain to ask, and Run does
  -- not read the value that stands here for it.
  unfoldable pub asked :
      Option Chain → Endpoint → Upstream → Provider → ℕ → Outcome (Provider × Result NodeInfo)
  unfolding text
  asked none e upstream p sent = done (p, err (failure (text "not asked")))
  asked (some c) e upstream p sent = healthcheck json decoders c show e upstream p sent

  pub concluded :
      Endpoint → ℕ → ℕ → Outcome (Provider × Result NodeInfo) → Outcome (Provider × Endpoint × ℕ)
  concluded e interval now panicked = panicked
  concluded e interval now (done (p, node)) = done (run_once p e interval now node)

  -- runOnce: the batch is sent at one time, and the outcome noted at another.
  unfoldable pub cycle :
      Endpoint → Upstream → ℕ → ℕ → ℕ → Provider → Outcome (Provider × Endpoint × ℕ)
  unfolding asked concluded
  cycle e upstream interval sent now p =
      concluded e interval now (asked (new e.kind) e upstream p sent)
