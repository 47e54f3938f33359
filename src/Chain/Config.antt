-- ===== src/Chain/Config.antt =====
-- The ValidateConfig methods of internal/chain/{eth,solana,tron,btc}.
pub mod Names
use haprovider.Prelude.{
  ℕ, ◌^◌, Bool, true, false, not, List, [], ◌∷◌, ◌++◌, Option, none, some, ltb, if◌then◌else◌,
  is_empty, member, Text, text, has_suffix,
}
use haprovider.Rpc.Error.{Error, failure}
use haprovider.Rpc.Batch.{Result, ok, err}
use haprovider.Core.Time.{digits_number}
use haprovider.Core.Provider.{Provider}
use haprovider.Core.Endpoint.{Endpoint}
use haprovider.Chain.{Chain, ethereum, solana, tron, bitcoin}
use haprovider.Chain.Nodes.{Checked}

invalid_chain_id : Text → Checked
unfolding text
invalid_chain_id chain_id = err (failure (text "invalid chainId: " ++ chain_id))

-- strconv.ParseUint(s, 10, 64) has no error.
unfoldable pub is_uint64 : Text → Bool
is_uint64 s = elim (digits_number s) [ none ↦ false | some n ↦ ltb n (2 ^ 64) ]

-- A configured chain id is one of the names that the health check reports.
validate_name : List Text → Text → Checked
unfolding invalid_chain_id member
validate_name names chain_id = if member chain_id names then ok tt else invalid_chain_id chain_id

-- The loop over the URLs of a Tron endpoint
validate_urls : List Provider → Checked
unfolding text has_suffix
validate_urls [] = ok tt
validate_urls (p ∷ ps) =
    let rest = validate_urls ps in
    if not (has_suffix p.http (text "/jsonrpc"))
    then err (
        failure (
          text "provider "
          ++ (p.name
              ++ text " http url must end with /jsonrpc and node must support the JSON-RPC API")))
    else rest

unfoldable pub names_solana : List Text
unfolding text
names_solana = text "mainnet" ∷ text "testnet" ∷ text "devnet" ∷ []

unfoldable pub names_tron : List Text
unfolding text
names_tron = text "nile" ∷ text "mainnet" ∷ text "shasta" ∷ []

unfoldable pub names_btc : List Text
unfolding text
names_btc = text "mainnet" ∷ text "testnet3" ∷ text "testnet4" ∷ text "signet" ∷ []

-- ValidateConfig: `ok tt` is the nil error.
unfoldable pub validate_config : Chain → Endpoint → List Provider → Checked
unfolding is_uint64 invalid_chain_id validate_name validate_urls names_solana names_tron names_btc
validate_config ethereum e ps =
    if is_empty e.chain_id
    then ok tt
    else (if is_uint64 e.chain_id then ok tt else invalid_chain_id e.chain_id)
validate_config solana e ps =
    if is_empty e.chain_id then ok tt else validate_name names_solana e.chain_id
validate_config tron e ps =
    if is_empty e.chain_id then validate_urls ps else validate_name names_tron e.chain_id
validate_config bitcoin e ps =
    if is_empty e.chain_id then ok tt else validate_name names_btc e.chain_id
