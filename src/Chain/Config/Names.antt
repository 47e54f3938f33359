-- ===== src/Chain/Config/Names.antt =====
-- A chain id that a health check reports is one that the configuration may name
-- (internal/chain/{solana,tron,btc}).
use haprovider.Prelude.{ℕ, ◌≡◌, refl, List, Text, text, arith}
use haprovider.Rpc.Batch.{ok}
use haprovider.Core.Provider.{Provider}
use haprovider.Core.Endpoint.{Endpoint}
use haprovider.Chain.{Chain, solana, tron, bitcoin}
use haprovider.Chain.Nodes.Solana
use haprovider.Chain.Nodes.Tron
use haprovider.Chain.Nodes.Bitcoin
use haprovider.Chain.Config.{validate_config, names_solana, names_tron, names_btc}

-- The names that the node of a chain may report.
pub data Reports : Chain → Text → Type 0 where
  of_solana : (hash : Text) → Reports solana (Solana.network hash)
  of_tron : (n : ℕ) {name : Text} → Tron.network n ≡ ok name → Reports tron name
  of_bitcoin : (hash : Text) → Reports bitcoin (Bitcoin.network hash)

solana_names :
    (e : Endpoint) (ps : List Provider) (hash : Text)
    → e.chain_id ≡ Solana.network hash
    → validate_config solana e ps ≡ ok tt
unfolding validate_config Solana.network names_solana text
solana_names e ps hash h = ground arith

tron_names :
    (e : Endpoint) (ps : List Provider) (n : ℕ)
    → Tron.network n ≡ ok e.chain_id
    → validate_config tron e ps ≡ ok tt
unfolding validate_config Tron.network names_tron text
tron_names e ps n h = ground arith

bitcoin_names :
    (e : Endpoint) (ps : List Provider) (hash : Text)
    → e.chain_id ≡ Bitcoin.network hash
    → validate_config bitcoin e ps ≡ ok tt
unfolding validate_config Bitcoin.network names_btc text
bitcoin_names e ps hash h = ground arith

accepted_name :
    (c : Chain) (e : Endpoint) (ps : List Provider) (name : Text)
    → Reports c name
    → e.chain_id ≡ name
    → validate_config c e ps ≡ ok tt
accepted_name c e ps name (of_solana hash) h = solana_names e ps hash h
accepted_name c e ps name (of_tron n known) h = tron_names e ps n (rw h known)
accepted_name c e ps name (of_bitcoin hash) h = bitcoin_names e ps hash h

-- A chain id that the health check of a Solana, Tron or Bitcoin node reports can be configured: the
-- configuration of an endpoint with that id is accepted, also where the id is empty for want of a
-- name.
pub validate_config-Reports :
    (c : Chain) (e : Endpoint) (ps : List Provider)
    → Reports c e.chain_id
    → validate_config c e ps ≡ ok tt
validate_config-Reports c e ps r = accepted_name c e ps e.chain_id r refl
