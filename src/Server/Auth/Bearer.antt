-- ===== src/Server/Auth/Bearer.antt =====
-- Which requests are authenticated (internal/auth.go).
use haprovider.Prelude.{
  ◌≡◌, ◌≢◌, ◌↔◌, inl, inr, refl, sym, ap, ◌∙◌, ◌+◌, length-append, trim_left, trim_right, ℕ, zero,
  suc, true, false, not, ◌||◌, List, [], ◌∷◌, ◌++◌, some, Bool-cases, Option-cases, leb, is_empty,
  length, take, Text, text, text_eq, text_eq_iff, to_lower, drop, trim_space, arith,
}
use haprovider.Core.Endpoint.{Endpoint, requires_auth}
use haprovider.Core.Endpoint.Keys.{IsKeyOf, authorized-filled}
use haprovider.Server.Auth.{nonempty, bearer_token, accepted, authenticate}

take-drop : (n : ℕ) (s : Text) → take n s ++ drop n s ≡ s
unfolding drop
take-drop zero s = refl
take-drop (suc n) [] = refl
take-drop (suc n) (c ∷ s) = ap (λ (t : Text). c ∷ t) (take-drop n s)

-- A header of the Bearer scheme, in any case, with a token round which there may be space
pub record IsBearer (header token : Text) : Type 0 where
  pub scheme : Text
  pub rest : Text
  pub whole : header ≡ scheme ++ rest
  pub bearer : to_lower scheme ≡ text "bearer "
  pub trimmed : trim_space rest ≡ token

nonempty-same : (s t : Text) → nonempty s ≡ some t → s ≡ t
nonempty-same [] t h = cc
nonempty-same (c ∷ s) t h = cc

bearer_token-IsBearer :
    (header token : Text) → bearer_token header ≡ some token → IsBearer header token
unfolding bearer_token
bearer_token-IsBearer header token h =
    elim (Bool-cases
      (leb (length header) 7 || not (text_eq (to_lower (take 7 header)) (text "bearer ")))) [
        | inl no_token ↦ absurd (ground arith)
        | inr long ↦ record {
          scheme = take 7 header;
          rest = drop 7 header;
          whole = sym (take-drop 7 header);
          bearer = (text_eq_iff (to_lower (take 7 header)) (text "bearer ")).0 (ground arith);
          trimmed = nonempty-same (trim_space (drop 7 header)) token (rw long at h);
        }
      ]

-- What Authenticate asks of a request.
pub data IsAuthenticated (e : Endpoint) (header : Text → Text) : Type 0 where
  open_endpoint : e.auth_keys ≡ [] → IsAuthenticated e header
  with_key :
      (token : Text)
      → IsBearer (header (text "Authorization")) token
      → token ≢ []
      → IsKeyOf token e.auth_keys
      → IsAuthenticated e header

no_keys : (ks : List Text) → not (not (is_empty ks)) ≡ true → ks ≡ []
no_keys [] h = refl
no_keys (k ∷ ks) h = cc

authenticate-only :
    (e : Endpoint) (header : Text → Text) → authenticate e header ≡ true → IsAuthenticated e header
unfolding authenticate requires_auth accepted
authenticate-only e header h = elim (Bool-cases (not (not (is_empty e.auth_keys)))) [
  | inl free ↦ open_endpoint (no_keys e.auth_keys free)
  | inr guarded ↦ elim (Option-cases (bearer_token (header (text "Authorization")))) [
    | inl no_token ↦ absurd (ground arith)
    | inr (token, found) ↦
        let (filled, key) = (authorized-filled e token).0 (rw found at (rw guarded at h)) in
        with_key token (bearer_token-IsBearer (header (text "Authorization")) token found) filled
          key
  ]
]

length-to_lower : (s : Text) → length (to_lower s) ≡ length s
unfolding to_lower
length-to_lower [] = refl
length-to_lower (c ∷ s) = ap suc (length-to_lower s)

take-append : (n : ℕ) (s r : Text) → length s ≡ n → take n (s ++ r) ≡ s
take-append zero [] r h = refl
take-append zero (c ∷ s) r h = absurd (omega arith)
take-append (suc n) [] r h = absurd (omega arith)
take-append (suc n) (c ∷ s) r h = ap (λ (t : Text). c ∷ t) (take-append n s r (omega arith))

drop-append : (n : ℕ) (s r : Text) → length s ≡ n → drop n (s ++ r) ≡ r
unfolding drop
drop-append zero [] r h = refl
drop-append zero (c ∷ s) r h = absurd (omega arith)
drop-append (suc n) [] r h = absurd (omega arith)
drop-append (suc n) (c ∷ s) r h = drop-append n s r (omega arith)

scheme_length : (scheme : Text) → to_lower scheme ≡ text "bearer " → length scheme ≡ 7
unfolding text
scheme_length scheme h = sym (length-to_lower scheme) ∙ ap (λ (t : Text). length t) h

nonempty-some : (t : Text) → t ≢ [] → nonempty t ≡ some t
nonempty-some [] h = absurd (h refl)
nonempty-some (c ∷ t) h = refl

too_short : (n : ℕ) (rest : Text) → n ≡ 7 → trim_space rest ≢ [] → leb (n + length rest) 7 ≡ false
unfolding trim_space trim_left trim_right
too_short n [] e h = absurd (h refl)
too_short n (c ∷ rest) e h = ground arith

IsBearer-bearer_token :
    (header token : Text) → IsBearer header token → token ≢ [] → bearer_token header ≡ some token
unfolding bearer_token
IsBearer-bearer_token header token b filled =
    let seven = scheme_length b.scheme b.bearer in
    rw
      (
        b.whole,
        take-append 7 b.scheme b.rest seven,
        drop-append 7 b.scheme b.rest seven,
        length-append b.scheme b.rest,
        too_short (length b.scheme) b.rest seven (λ e. filled (sym b.trimmed ∙ e)),
        (text_eq_iff (to_lower b.scheme) (text "bearer ")).1 b.bearer,
        b.trimmed,
      )
      (nonempty-some token filled)

-- Authenticate lets a request pass exactly when its endpoint has no keys, or it has an Authorization
-- header of the Bearer scheme with a token that is not empty and is one of the endpoint's keys.
pub authenticate-IsAuthenticated :
    (e : Endpoint) (header : Text → Text)
    → (authenticate e header ≡ true) ↔ IsAuthenticated e header
unfolding authenticate requires_auth accepted
authenticate-IsAuthenticated e header = (authenticate-only e header, passes)
  where
    passes : IsAuthenticated e header → authenticate e header ≡ true
    passes (open_endpoint free) = rw free refl
    passes (with_key token bearer filled key) =
        elim (Bool-cases (not (not (is_empty e.auth_keys)))) [
          | inl free ↦ rw free refl
          | inr guarded ↦
              rw
                (
                  guarded,
                  IsBearer-bearer_token (header (text "Authorization")) token bearer filled,
                  (authorized-filled e token).1 (filled, key),
                )
                refl
        ]
