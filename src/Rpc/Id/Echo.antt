-- ===== src/Rpc/Id/Echo.antt =====
-- Which ids are accepted (internal/rpc/id.go), and that an accepted id is echoed as it came.
use haprovider.Prelude.{◌≡◌, ◌≤◌, ◌⊎◌, ◌↔◌, [], ◌∷◌, some, Text, text, text_eq_iff, arith}
use haprovider.Rpc.Id.{unmarshal_id, marshal_id}

-- A JSON value that is a string, a number, or null, told by how it begins.
abbrev pub IsIdToken : Text → Type 0
IsIdToken [] = ⊥
IsIdToken (c ∷ rest) =
    (c ≡ b'"')
    ⊎ ((c ≡ b'-') ⊎ (((b'0' ≤ c) × (c ≤ b'9')) ⊎ (◌≡◌ {A = Text} (c ∷ rest) (text "null"))))

-- An id is accepted exactly when it is a string, a number or null, and what is stored is then
-- written back byte for byte.
pub unmarshal_id-IsIdToken :
    (b v : Text) → (unmarshal_id b ≡ some v) ↔ (IsIdToken b × (v ≡ b) × (marshal_id v ≡ b))
unfolding unmarshal_id marshal_id
unmarshal_id-IsIdToken [] v = ((λ h. cc), λ h. absurd h.0)
unmarshal_id-IsIdToken (c ∷ rest) v = (
  (λ h. ground (arith, text_eq_iff (c ∷ rest) (text "null"))),
  λ h. ground (arith, text_eq_iff (c ∷ rest) (text "null")),
)
