-- ===== src/Chain/Errors/Classes.antt =====
-- What the chains agree on about error codes (internal/chain/*/*.go).
use haprovider.Prelude.{◌≡◌, ◌⊎◌, ◌↔◌, true, none, some, ℤ, minus, Text, arith}
use haprovider.Rpc.Error.{try_next_provider}
use haprovider.Chain.{Chain, ethereum, solana, tron, bitcoin}
use haprovider.Chain.Errors.{
  handle_error, handle_error_eth, handle_error_solana, handle_error_tron, handle_error_btc,
  is_data_unavailable,
}

-- The codes of a request that is itself at fault: parse error, invalid request, invalid params.
abbrev pub IsClientFault : ℤ → Type 0
IsClientFault c = (c ≡ minus 32700) ⊎ ((c ≡ minus 32600) ⊎ (c ≡ minus 32602))

-- On every chain an error of the client's own making is no error of the provider: the response goes
-- to the client as it is.
pub handle_error-fault :
    (chain : Chain) (c : ℤ) (message : Text) → IsClientFault c → handle_error chain c message ≡ none
unfolding handle_error handle_error_eth handle_error_solana handle_error_tron handle_error_btc
handle_error-fault ethereum c message h = ground arith
handle_error-fault solana c message h = ground arith
handle_error-fault tron c message h = ground arith
handle_error-fault bitcoin c message h = ground arith

-- On Ethereum another provider is tried, with this one left alone, exactly for a missing resource,
-- and for a server error whose message says that data is not available.
pub handle_error_eth-try_next :
    (c : ℤ) (message : Text)
    → (handle_error ethereum c message ≡ some (try_next_provider message)) ↔ (
        (c ≡ minus 32001)
        ⊎ ((c ≡ minus 32002) ⊎ ((c ≡ minus 32000) × (is_data_unavailable message ≡ true))))
unfolding handle_error handle_error_eth
handle_error_eth-try_next c message = (λ h. ground arith, λ h. ground arith)
