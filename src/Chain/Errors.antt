-- ===== src/Chain/Errors.antt =====
-- The HandleError methods of internal/chain/{eth,solana,tron,btc}: what a JSON-RPC error of a
-- provider means. `none` is the nil error: the response goes to the client as it is.
pub mod Classes
use haprovider.Prelude.{
  ℕ, Bool, true, false, ◌||◌, List, [], ◌∷◌, ◌++◌, Option, none, some, ℤ, minus, int_eq,
  if◌then◌else◌, Text, text, contains, to_lower,
}
use haprovider.Rpc.Error.{Error, method_not_supported, rate_limited, try_next_provider, failure}
use haprovider.Chain.{Chain, ethereum, solana, tron, bitcoin}

-- `case a, b, c:` of a switch
abbrev pub one_of : ℤ → List ℤ → Bool
one_of c [] = false
one_of c (k ∷ ks) = int_eq c k || one_of c ks

-- dataUnavailableHints
unfoldable pub data_unavailable_hints : List Text
unfolding text
data_unavailable_hints =
    text "missing trie node"
    ∷ text "header not found"
    ∷ text "block not found"
    ∷ text "historical state"
    ∷ text "state not available"
    ∷ text "state is not available"
    ∷ text "no state available"
    ∷ text "not synced"
    ∷ text "not in sync"
    ∷ text "indexing"
    ∷ []

contains_any : Text → List Text → Bool
unfolding contains
contains_any m [] = false
contains_any m (hint ∷ hints) = contains m hint || contains_any m hints

-- isDataUnavailable
unfoldable pub is_data_unavailable : Text → Bool
unfolding contains_any data_unavailable_hints to_lower
is_data_unavailable message = contains_any (to_lower message) data_unavailable_hints

internal_error : Text → Error
unfolding text
internal_error message = failure (text "internal error: " ++ message)

network_error : Text → Error
unfolding text
network_error message = failure (text "provider network error: " ++ message)

-- (*Ethereum).HandleError
unfoldable pub handle_error_eth : ℤ → Text → Option Error
unfolding internal_error network_error
handle_error_eth c message =
    if one_of c (minus 32601 ∷ minus 32604 ∷ minus 32004 ∷ minus 32612 ∷ minus 32613 ∷ [])
    then some (method_not_supported c message)
    else if one_of c (minus 32005 ∷ [])
    then some (rate_limited message (ℤ.pos 0))
    else if one_of c (minus 32603 ∷ [])
    then some (internal_error message)
    else if one_of c (minus 32011 ∷ [])
    then some (network_error message)
    else if one_of c (minus 32001 ∷ minus 32002 ∷ [])
    then some (try_next_provider message)
    else if one_of c (minus 32000 ∷ [])
    then (if is_data_unavailable message then some (try_next_provider message) else none)
    else none

-- (*solana.Chain).HandleError
unfoldable pub handle_error_solana : ℤ → Text → Option Error
unfolding internal_error
handle_error_solana c message =
    if one_of c (minus 32601 ∷ [])
    then some (method_not_supported c message)
    else if one_of c (minus 32005 ∷ [])
    then some (rate_limited message (ℤ.pos 0))
    else if one_of c (minus 32603 ∷ [])
    then some (internal_error message)
    else if one_of c (
        minus 32001
        ∷ minus 32004
        ∷ minus 32007
        ∷ minus 32008
        ∷ minus 32009
        ∷ minus 32011
        ∷ minus 32014
        ∷ minus 32016
        ∷ [])
    then some (try_next_provider message)
    else none

-- (*tron.Chain).HandleError
unfoldable pub handle_error_tron : ℤ → Text → Option Error
unfolding internal_error
handle_error_tron c message =
    if one_of c (minus 32005 ∷ [])
    then some (rate_limited message (ℤ.pos 0))
    else if one_of c (minus 32002 ∷ minus 32603 ∷ [])
    then some (internal_error message)
    else none

-- (*btc.Chain).HandleError
unfoldable pub handle_error_btc : ℤ → Text → Option Error
unfolding internal_error
handle_error_btc c message =
    if one_of c (minus 32603 ∷ []) then some (internal_error message) else none

unfoldable pub handle_error : Chain → ℤ → Text → Option Error
handle_error ethereum = handle_error_eth
handle_error solana = handle_error_solana
handle_error tron = handle_error_tron
handle_error bitcoin = handle_error_btc
