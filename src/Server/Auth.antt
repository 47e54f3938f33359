-- ===== src/Server/Auth.antt =====
-- internal/auth.go
pub mod Bearer
use haprovider.Prelude.{
  ◌≡◌, ◌↔◌, inl, inr, refl, sym, Bool, true, false, not, ◌||◌, List, [], ◌∷◌, ◌++◌, Option, none,
  some, Bool-cases, leb, if◌then◌else◌, is_empty, length, take, Text, text, text_eq, text_eq_iff,
  to_lower, drop, trim_space, arith,
}
use haprovider.Core.Endpoint.{Endpoint, requires_auth, authorized}
use haprovider.Core.Endpoint.Keys.{IsKeyOf, authorized-IsKeyOf}

abbrev nonempty : Text → Option Text
nonempty [] = none
nonempty (c ∷ s) = some (c ∷ s)

-- bearerToken. EqualFold with an ASCII text that has no k and no s compares in lower case.
unfoldable pub bearer_token : Text → Option Text
unfolding text text_eq to_lower drop trim_space
bearer_token header =
    if leb (length header) 7 || not (text_eq (to_lower (take 7 header)) (text "bearer "))
    then none
    else nonempty (trim_space (drop 7 header))

accepted : Endpoint → Option Text → Bool
accepted e none = false
accepted e (some token) = authorized e token

-- Authenticate
unfoldable pub authenticate : Endpoint → (Text → Text) → Bool
unfolding accepted requires_auth text
authenticate e header =
    if not (requires_auth e)
    then true
    else accepted e (bearer_token (header (text "Authorization")))
