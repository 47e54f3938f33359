-- ===== src/Server/HttpApi/Climb.antt =====
-- No path that is forwarded climbs out of its prefix (internal/http.go).
use haprovider.Prelude.{
  ℕ, ◌≡◌, ◌≢◌, ◌⊎◌, inl, inr, refl, sym, ap, ◌∙◌, true, false, List, [], ◌∷◌, ◌++◌, map, ◌==◌,
  Bool-cases, all, All, Text, text, text_eq, ==_iff, has_prefix, join, arith,
}
use haprovider.Prelude.Split.{split, lacks, split-join, split-append, split-cons}
use haprovider.Server.HttpApi.{
  http_api_prefixes, plain_segments, has_api_prefix, allowed_http_api_path, escape_path,
}

-- url.PathEscape as documented: its result holds no delimiter, and url.PathUnescape, which changes no
-- text without a percent sign, undoes it.
pub record IsEscape (escape unescape : Text → Text) : Type 0 where
  pub undone : (s : Text) → unescape (escape s) ≡ s
  pub unchanged : (s : Text) → lacks b'%' s ≡ true → unescape s ≡ s
  pub no_slash : (s : Text) → lacks b'/' (escape s) ≡ true
  pub no_query : (s : Text) → lacks b'?' (escape s) ≡ true
  pub no_fragment : (s : Text) → lacks b'#' (escape s) ≡ true

-- A segment that resolving a path takes as it stands
pub record IsPlain (s : Text) : Type 0 where
  pub filled : s ≢ []
  pub no_dot : s ≢ b'.' ∷ []
  pub no_dots : s ≢ b'.' ∷ b'.' ∷ []

-- The first segment of the paths that are forwarded
abbrev pub IsApiName : Text → Type 0
IsApiName s = (s ≡ text "wallet") ⊎ (s ≡ text "walletsolidity") ⊎ (s ≡ text "walletpbft")

plain_segments-IsPlain : (ss : List Text) → plain_segments ss ≡ true → All IsPlain ss
unfolding plain_segments text text_eq
plain_segments-IsPlain [] h = tt
plain_segments-IsPlain (s ∷ ss) h = (
  record { filled = λ e. ground arith; no_dot = λ e. ground arith; no_dots = λ e. ground arith },
  plain_segments-IsPlain ss (ground arith),
)

has_prefix-append : (s t : Text) → has_prefix s t ≡ true → (r : Text) × (s ≡ t ++ r)
unfolding has_prefix
has_prefix-append s [] h = (s, refl)
has_prefix-append [] (b ∷ t) h = cc
has_prefix-append (a ∷ s) (b ∷ t) h =
    let (r, e) = has_prefix-append s t (ground arith) in (r, ground (arith, ==_iff a b))

-- The path is one of the names, a slash and something more.
has_api_prefix-names :
    (path : Text)
    → has_api_prefix path http_api_prefixes ≡ true
    → (name r : Text) × IsApiName name × (path ≡ name ++ b'/' ∷ r) × (lacks b'/' name ≡ true)
unfolding has_api_prefix http_api_prefixes text
has_api_prefix-names path h = elim (Bool-cases (has_prefix path (text "wallet/"))) [
  | inl wallet ↦
      let (r, e) = has_prefix-append path (text "wallet/") wallet in
      (text "wallet", r, inl refl, e, refl)
  | inr no_wallet ↦ elim (Bool-cases (has_prefix path (text "walletsolidity/"))) [
    | inl solidity ↦
        let (r, e) = has_prefix-append path (text "walletsolidity/") solidity in
        (text "walletsolidity", r, inr (inl refl), e, refl)
    | inr no_solidity ↦ elim (Bool-cases (has_prefix path (text "walletpbft/"))) [
      | inl pbft ↦
          let (r, e) = has_prefix-append path (text "walletpbft/") pbft in
          (text "walletpbft", r, inr (inr refl), e, refl)
      | inr no_pbft ↦ absurd (ground arith)
    ]
  ]
]

allowed-both :
    (path : Text)
    → allowed_http_api_path path ≡ true
    → (plain_segments (split b'/' path) ≡ true) × (has_api_prefix path http_api_prefixes ≡ true)
unfolding allowed_http_api_path
allowed-both path h = elim (Bool-cases (plain_segments (split b'/' path))) [
  | inl plain ↦ (plain, rw plain at h)
  | inr climbs ↦ absurd (ground arith)
]

lacks-append :
    (sep : ℕ) (s t : Text) → lacks sep s ≡ true → lacks sep t ≡ true → lacks sep (s ++ t) ≡ true
lacks-append sep [] t hs ht = ht
lacks-append sep (c ∷ s) t hs ht = ground (arith, lacks-append sep s t)

module _ {escape unescape : Text → Text} (law : IsEscape escape unescape) where
  unescape-same : (s t : Text) → lacks b'%' t ≡ true → escape s ≡ t → s ≡ t
  unescape-same s t plain e = sym (law.undone s) ∙ (ap unescape e ∙ law.unchanged t plain)

  escape-IsPlain : (s : Text) → IsPlain s → IsPlain (escape s)
  escape-IsPlain s p = record {
    filled = λ e. p.filled (unescape-same s [] refl e);
    no_dot = λ e. p.no_dot (unescape-same s (b'.' ∷ []) refl e);
    no_dots = λ e. p.no_dots (unescape-same s (b'.' ∷ b'.' ∷ []) refl e);
  }

  escapes-IsPlain : (ss : List Text) → All IsPlain ss → All IsPlain (map escape ss)
  escapes-IsPlain [] h = tt
  escapes-IsPlain (s ∷ ss) h = (escape-IsPlain s h.0, escapes-IsPlain ss h.1)

  escapes-lack :
      (sep : ℕ) (ss : List Text)
      → ((s : Text) → lacks sep (escape s) ≡ true)
      → all (lacks sep) (map escape ss) ≡ true
  escapes-lack sep [] h = refl
  escapes-lack sep (s ∷ ss) h = ground (arith, h s, escapes-lack sep ss h)

  lacks-join :
      (sep : ℕ) (ss : List Text)
      → (b'/' == sep) ≡ false
      → all (lacks sep) ss ≡ true
      → lacks sep (join (b'/' ∷ []) ss) ≡ true
  unfolding join
  lacks-join sep [] apart h = refl
  lacks-join sep (s ∷ []) apart h = ground arith
  lacks-join sep (s ∷ t ∷ ss) apart h =
      ground (
        arith,
        lacks-append sep s (b'/' ∷ join (b'/' ∷ []) (t ∷ ss)),
        lacks-join sep (t ∷ ss) apart,
      )

  -- The escaped path splits into the escaped segments.
  split-escape_path :
      (path : Text) → split b'/' (escape_path escape path) ≡ map escape (split b'/' path)
  unfolding escape_path
  split-escape_path path =
      let (p, ps, cons) = split-cons b'/' path in
      rw cons (split-join b'/' (escape p) (map escape ps) (escapes-lack b'/' (p ∷ ps) law.no_slash))

  -- The path in the URL that a provider gets: it splits into plain segments, the first of which is
  -- the name of an API and is not the last, and no byte of it begins a query or a fragment.
  pub record StaysBelow (upstream : Text) : Type 0 where
    pub name : Text
    pub segment : Text
    pub more : List Text
    pub segments : split b'/' upstream ≡ name ∷ segment ∷ more
    pub below : IsApiName (unescape name)
    pub plain : All IsPlain (name ∷ segment ∷ more)
    pub no_query : lacks b'?' upstream ≡ true
    pub no_fragment : lacks b'#' upstream ≡ true

  escape_path-lacks :
      (sep : ℕ) (path : Text)
      → (b'/' == sep) ≡ false
      → ((s : Text) → lacks sep (escape s) ≡ true)
      → lacks sep (escape_path escape path) ≡ true
  unfolding escape_path
  escape_path-lacks sep path apart h =
      lacks-join sep (map escape (split b'/' path)) apart (escapes-lack sep (split b'/' path) h)

  -- If url.PathEscape does what is documented, the path of every request that is let through stays
  -- below the name of one of the three wallet APIs once it is escaped and put into the URL.
  pub escape_path-StaysBelow :
      (path : Text) → allowed_http_api_path path ≡ true → StaysBelow (escape_path escape path)
  escape_path-StaysBelow path h =
      let (segments, prefix) = allowed-both path h in
      let plain = plain_segments-IsPlain (split b'/' path) segments in
      let (name, r, api, same, one) = has_api_prefix-names path prefix in
      let (p, ps, cons) = split-cons b'/' r in
      let parts : split b'/' path ≡ name ∷ p ∷ ps =
        rw same (split-append b'/' name r one ∙ ap (λ (t : List Text). name ∷ t) cons) in
      record {
        name = escape name;
        segment = escape p;
        more = map escape ps;
        segments = split-escape_path path ∙ ap (λ (t : List Text). map escape t) parts;
        below = rw (law.undone name) api;
        plain = escapes-IsPlain (name ∷ p ∷ ps) (rw parts at plain);
        no_query = escape_path-lacks b'?' path refl law.no_query;
        no_fragment = escape_path-lacks b'#' path refl law.no_fragment;
      }
