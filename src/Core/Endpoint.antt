-- ===== src/Core/Endpoint.antt =====
-- internal/core/endpoint.go. The mutex of an endpoint makes each call one step; its list of
-- providers is passed beside it.
pub mod ChainId
pub mod Tip
pub mod Keys
use haprovider.Prelude.{
  ℕ, Bool, true, false, not, ◌&&◌, List, [], ◌∷◌, ◌++◌, Option, none, some, ℤ, pos, ltb,
  if◌then◌else◌, is_empty, any, Text, text, text_eq,
}
use haprovider.Rpc.Error.{Error, failure}

pub data Kind : Type 0 where
  eth solana tron btc : Kind
  unknown : Text → Kind

abbrev pub default_max_response_size : ℤ
default_max_response_size = pos 104857600

pub record Endpoint : Type 0 where
  pub name : Text
  pub chain_id : Text
  pub kind : Kind
  pub public : Bool
  pub keys : List Text
  pub auth_keys : List Text
  pub add_x_forwarded_headers : Bool
  pub block_lag_tolerance : Option ℤ
  pub max_response_size : Option ℤ
  pub highest_block : ℕ

-- An endpoint as the configuration gives it.
abbrev pub fresh_endpoint : Text → Kind → Endpoint
fresh_endpoint name kind = record {
  name = name;
  chain_id = [];
  kind = kind;
  public = false;
  keys = [];
  auth_keys = [];
  add_x_forwarded_headers = false;
  block_lag_tolerance = none;
  max_response_size = none;
  highest_block = 0;
}

-- SetChainID: `none` is the nil error.
unfoldable pub set_chain_id : Endpoint → Text → Endpoint × Option Error
unfolding text text_eq
set_chain_id e chain_id =
    if is_empty e.chain_id
    then (record e { chain_id = chain_id }, none)
    else if not (text_eq e.chain_id chain_id)
    then (
      e,
      some (
          failure (
            text "chainId mismatch: received="
            ++ (chain_id ++ (text ", expected=" ++ e.chain_id)))),
    )
    else (e, none)

-- ObserveBlock
unfoldable pub observe_block : Endpoint → ℕ → Endpoint
observe_block e height =
    if ltb e.highest_block height then record e { highest_block = height } else e

-- GetMaxResponseSize
unfoldable pub get_max_response_size : Endpoint → ℤ
get_max_response_size e = elim e.max_response_size [ none ↦ default_max_response_size | some n ↦ n ]

-- InitAuth
unfoldable pub init_auth : Endpoint → List Text → Endpoint
init_auth e global_keys = record e { auth_keys = e.keys ++ global_keys }

-- RequiresAuth
unfoldable pub requires_auth : Endpoint → Bool
requires_auth e = not (is_empty e.auth_keys)

accepts : Text → List Text → Bool
unfolding text_eq
accepts token [] = false
accepts token (k ∷ ks) =
    let rest = accepts token ks in if not (is_empty k) && text_eq token k then true else rest

-- Authorized; a constant-time comparison of all bytes is an equality test.
unfoldable pub authorized : Endpoint → Text → Bool
unfolding accepts
authorized e token = accepts token e.auth_keys
