-- ===== src/Core/Endpoint/Keys.antt =====
-- Which tokens an endpoint accepts (internal/core/endpoint.go).
use haprovider.Prelude.{
  ◌≡◌, ◌≢◌, ◌⊎◌, ◌↔◌, inl, inr, Bool-cases, not, ◌&&◌, is_empty, true, List, [], ◌∷◌, ◌++◌, Text,
  text_eq, text_eq_iff, arith,
}
use haprovider.Core.Endpoint.{Endpoint, init_auth, authorized, accepts}

abbrev pub IsKeyOf : Text → List Text → Type 0
IsKeyOf token [] = ⊥
IsKeyOf token (k ∷ ks) = (token ≡ k) ⊎ IsKeyOf token ks

accepts-IsKeyOf :
    (token : Text) (ks : List Text) → (accepts token ks ≡ true) → (token ≢ []) × IsKeyOf token ks
unfolding accepts
accepts-IsKeyOf token [] h = cc
accepts-IsKeyOf token (k ∷ ks) h = elim (Bool-cases (not (is_empty k) && text_eq token k)) [
  | inl here ↦
      let same : token ≡ k = ground (arith, text_eq_iff token k) in ((λ e. ground arith), inl same)
  | inr other ↦ let (filled, rest) = accepts-IsKeyOf token ks (rw other at h) in (filled, inr rest)
]

IsKeyOf-accepts :
    (token : Text) (ks : List Text) → token ≢ [] → IsKeyOf token ks → accepts token ks ≡ true
unfolding accepts
IsKeyOf-accepts token [] filled h = absurd h
IsKeyOf-accepts token (k ∷ ks) filled (inl e) = ground (arith, text_eq_iff token k)
IsKeyOf-accepts token (k ∷ ks) filled (inr h) = ground (arith, IsKeyOf-accepts token ks filled h)

-- A token is accepted exactly when it is not empty and is one of the effective keys.
pub authorized-filled :
    (e : Endpoint) (token : Text)
    → (authorized e token ≡ true) ↔ ((token ≢ []) × IsKeyOf token e.auth_keys)
unfolding authorized
authorized-filled e token =
    (accepts-IsKeyOf token e.auth_keys, λ h. IsKeyOf-accepts token e.auth_keys h.0 h.1)

-- With the global keys added, an endpoint accepts a token exactly when it is not empty and is one
-- of the endpoint's own keys or of the global ones.
pub authorized-IsKeyOf :
    (e : Endpoint) (global_keys : List Text) (token : Text)
    → (authorized (init_auth e global_keys) token ≡ true)
      ↔ ((token ≢ []) × IsKeyOf token (e.keys ++ global_keys))
unfolding authorized init_auth
authorized-IsKeyOf e global_keys token = (
  accepts-IsKeyOf token (e.keys ++ global_keys),
  λ h. IsKeyOf-accepts token (e.keys ++ global_keys) h.0 h.1,
)
