-- ===== src/Core/NodeInfo.antt =====
-- internal/core/nodeinfo.go.
use haprovider.Prelude.{ℕ, Text}

pub record NodeInfo : Type 0 where
  pub client_version : Text
  pub chain_id : Text
  pub block_height : ℕ
