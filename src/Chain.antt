-- ===== src/Chain.antt =====
-- internal/chain: what the four supported chains decide. A value of `Chain` stands for the empty
-- struct that implements the interface.
pub mod Errors
pub mod Methods
pub mod Reject
pub mod Hex
pub mod Nodes
pub mod Config
use haprovider.Prelude.{Option, none, some}
use haprovider.Core.Endpoint.{Kind}

pub data Chain : Type 0 where
  ethereum solana tron bitcoin : Chain

-- chain.New; `none` is the nil interface.
unfoldable pub new : Kind → Option Chain
new Kind.eth = some ethereum
new Kind.solana = some solana
new Kind.tron = some tron
new Kind.btc = some bitcoin
new (Kind.unknown name) = none
