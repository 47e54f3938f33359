-- ===== src/Redact/Pieces.antt =====
-- What urlRe finds in a text (internal/redact/redact.go).
use haprovider.Prelude.{
  ℕ, zero, suc, ◌+◌, ◌≡◌, ◌≤◌, ◌<◌, refl, ap, sym, ◌∙◌, Bool, true, false, Bool-cases, inl, inr,
  List, [], ◌∷◌, ◌++◌, append-nil, append_assoc, all, Option, none, some, length, length-append,
  drop, Text, contains, has_prefix, if◌then◌else◌, arith,
}
use haprovider.Redact.{
  Piece, between, matched, is_letter, is_scheme_char, is_url_char, span, with_tail, after_scheme,
  match_url, pieces_within, pieces,
}

-- The text that the pieces make up
unfoldable pub whole : List Piece → Text
whole [] = []
whole (between t ∷ ps) = t ++ whole ps
whole (matched t ∷ ps) = t ++ whole ps

abbrev pub slashes : Text
slashes = b':' ∷ b'/' ∷ b'/' ∷ []

span-whole : (p : ℕ → Bool) (s : Text) → (span p s).0 ++ (span p s).1 ≡ s
unfolding span
span-whole p [] = refl
span-whole p (c ∷ s) = elim (Bool-cases (p c)) [
  | inl fits ↦ rw fits (ap (λ (t : Text). c ∷ t) (span-whole p s))
  | inr other ↦ rw other refl
]

-- A match: it makes up the text together with the rest, has "://" in it, and is not empty.
record IsMatch (s m rest : Text) : Type 0 where
  divides : m ++ rest ≡ s
  has_slashes : contains m slashes ≡ true
  shorter : length rest < length s

slashes-drop : (s : Text) → has_prefix s slashes ≡ true → s ≡ b':' ∷ b'/' ∷ b'/' ∷ drop 3 s
unfolding has_prefix drop
slashes-drop [] h = cc
slashes-drop (a ∷ []) h = ground arith
slashes-drop (a ∷ b ∷ []) h = ground arith
slashes-drop (a ∷ b ∷ c ∷ s) h =
    let first : a ≡ 58 = ground arith in
    let second : b ≡ 47 = ground arith in
    let third : c ≡ 47 = ground arith in rw (first, second, third) refl

has_prefix-append : (s t u : Text) → has_prefix s u ≡ true → has_prefix (s ++ t) u ≡ true
unfolding has_prefix
has_prefix-append s t [] h = of_empty (s ++ t)
  where
    of_empty : (v : Text) → has_prefix v [] ≡ true
    of_empty [] = refl
    of_empty (c ∷ v) = refl
has_prefix-append [] t (b ∷ u) h = cc
has_prefix-append (a ∷ s) t (b ∷ u) h = ground (arith, has_prefix-append s t u)

pub contains-append-left : (s t u : Text) → contains s u ≡ true → contains (s ++ t) u ≡ true
unfolding contains has_prefix
contains-append-left [] t [] h = contains_nothing t
  where
    contains_nothing : (v : Text) → contains v [] ≡ true
    contains_nothing [] = refl
    contains_nothing (c ∷ v) = refl
contains-append-left [] t (b ∷ u) h = cc
contains-append-left (a ∷ s) t u h =
    ground (arith, has_prefix-append (a ∷ s) t u, contains-append-left s t u)

pub contains-append-right : (s t u : Text) → contains t u ≡ true → contains (s ++ t) u ≡ true
unfolding contains
contains-append-right [] t u h = h
contains-append-right (a ∷ s) t u h = ground (arith, contains-append-right s t u)

pub contains-slashes : (t : Text) → contains (b':' ∷ b'/' ∷ b'/' ∷ t) slashes ≡ true
unfolding contains has_prefix
contains-slashes t = refl

abbrev OnMatch : Text → Option (Text × Text) → Type 0
OnMatch s none = Unit
OnMatch s (some r) = IsMatch s r.0 r.1

with_tail-OnMatch :
    (scheme s : Text) (r : Text × Text)
    → scheme ++ (b':' ∷ b'/' ∷ b'/' ∷ (r.0 ++ r.1)) ≡ s
    → OnMatch s (with_tail scheme r)
with_tail-OnMatch scheme s ([], x) h = tt
with_tail-OnMatch scheme s (c ∷ t, x) h =
    let token = scheme ++ (b':' ∷ b'/' ∷ b'/' ∷ c ∷ t) in
    let parts : token ++ x ≡ s = append_assoc scheme (b':' ∷ b'/' ∷ b'/' ∷ c ∷ t) x ∙ h in
    let count : length token + length x ≡ length s =
      sym (length-append token x) ∙ ap (λ (u : Text). length u) parts in
    record {
      divides = parts;
      has_slashes = contains-append-right scheme _ slashes (contains-slashes (c ∷ t));
      shorter = omega (arith, count, length-append scheme (b':' ∷ b'/' ∷ b'/' ∷ c ∷ t));
    }

after_scheme-OnMatch : (s : Text) (r : Text × Text) → r.0 ++ r.1 ≡ s → OnMatch s (after_scheme r)
after_scheme-OnMatch s (scheme, rest) h = elim (Bool-cases (has_prefix rest slashes)) [
  | inl found ↦ rw found (
      with_tail-OnMatch scheme s (span is_url_char (drop 3 rest))
        (rw (span-whole is_url_char (drop 3 rest), sym (slashes-drop rest found)) h))
  | inr missing ↦ rw missing tt
]

OnMatch-if :
    (s : Text) (b : Bool) (o : Option (Text × Text))
    → OnMatch s o
    → OnMatch s (if b then o else none)
OnMatch-if s true o h = h
OnMatch-if s false o h = tt

match_url-OnMatch : (s : Text) → OnMatch s (match_url s)
unfolding match_url
match_url-OnMatch [] = tt
match_url-OnMatch (c ∷ s) =
    OnMatch-if (c ∷ s) (is_letter c) (after_scheme (span is_scheme_char (c ∷ s))) (
      after_scheme-OnMatch (c ∷ s) (span is_scheme_char (c ∷ s))
        (span-whole is_scheme_char (c ∷ s)))

-- The pieces make up the text.
pub whole-pieces_within : (n : ℕ) (s : Text) → whole (pieces_within n s) ≡ s
unfolding pieces_within whole
whole-pieces_within n [] = refl
whole-pieces_within zero (c ∷ s) = append-nil (c ∷ s)
whole-pieces_within (suc n) (c ∷ s) =
    of_match (match_url (c ∷ s)) (match_url-OnMatch (c ∷ s)) (whole-pieces_within n s)
      (whole-pieces_within n)
  where
    of_match :
        (o : Option (Text × Text))
        → OnMatch (c ∷ s) o
        → (whole (pieces_within n s) ≡ s)
        → ((rest : Text) → whole (pieces_within n rest) ≡ rest)
        → whole (elim o [
          | none ↦ between (c ∷ []) ∷ pieces_within n s
          | some (m, rest) ↦ matched m ∷ pieces_within n rest
        ])
          ≡ c ∷ s
    of_match none h one each = ap (λ (t : Text). c ∷ t) one
    of_match (some (m, rest)) h one each = ap (λ (t : Text). m ++ t) (each rest) ∙ h.divides

-- Each match has "://" in it.
abbrev pub AllUrls : List Piece → Type 0
AllUrls [] = Unit
AllUrls (between t ∷ ps) = AllUrls ps
AllUrls (matched t ∷ ps) = (contains t slashes ≡ true) × AllUrls ps

pub pieces_within-AllUrls : (n : ℕ) (s : Text) → AllUrls (pieces_within n s)
unfolding pieces_within
pieces_within-AllUrls n [] = tt
pieces_within-AllUrls zero (c ∷ s) = tt
pieces_within-AllUrls (suc n) (c ∷ s) =
    of_match (match_url (c ∷ s)) (match_url-OnMatch (c ∷ s)) (pieces_within-AllUrls n s)
      (pieces_within-AllUrls n)
  where
    of_match :
        (o : Option (Text × Text))
        → OnMatch (c ∷ s) o
        → (AllUrls (pieces_within n s))
        → ((rest : Text) → AllUrls (pieces_within n rest))
        → AllUrls (elim o [
          | none ↦ between (c ∷ []) ∷ pieces_within n s
          | some (m, rest) ↦ matched m ∷ pieces_within n rest
        ])
    of_match none h one each = one
    of_match (some (m, rest)) h one each = (h.has_slashes, each rest)

-- More rounds than the text has bytes find nothing more.
pub pieces_within-enough :
    (n : ℕ) (s : Text) → length s ≤ n → pieces_within (suc n) s ≡ pieces_within n s
unfolding pieces_within
pieces_within-enough n [] h = refl
pieces_within-enough zero (c ∷ s) h = absurd (omega arith)
pieces_within-enough (suc n) (c ∷ s) h =
    of_match (match_url (c ∷ s)) (match_url-OnMatch (c ∷ s))
      (pieces_within-enough n s (omega (arith, h))) (λ rest k. pieces_within-enough n rest k)
  where
    of_match :
        (o : Option (Text × Text))
        → OnMatch (c ∷ s) o
        → (pieces_within (suc n) s ≡ pieces_within n s)
        → ((rest : Text) → length rest ≤ n → pieces_within (suc n) rest ≡ pieces_within n rest)
        → elim o as (λ x. List Piece) [
          | none ↦ between (c ∷ []) ∷ pieces_within (suc n) s
          | some (m, rest) ↦ matched m ∷ pieces_within (suc n) rest
        ]
          ≡ elim o as (λ x. List Piece) [
            | none ↦ between (c ∷ []) ∷ pieces_within n s
            | some (m, rest) ↦ matched m ∷ pieces_within n rest
          ]
    of_match none k one each = ap (λ (ps : List Piece). between (c ∷ []) ∷ ps) one
    of_match (some (m, rest)) k one each =
        ap (λ (ps : List Piece). matched m ∷ ps) (each rest (omega (arith, h, k.shorter)))

-- A class holds of all of one text, and not of the first byte of another.
abbrev pub Stops : (ℕ → Bool) → Text → Type 0
Stops p [] = Unit
Stops p (c ∷ s) = p c ≡ false

span-append : (p : ℕ → Bool) (s t : Text) → all p s ≡ true → Stops p t → span p (s ++ t) ≡ (s, t)
unfolding span
span-append p [] [] h k = refl
span-append p [] (c ∷ t) h k = rw k refl
span-append p (c ∷ s) t h k = elim (Bool-cases (p c)) [
  | inl fits ↦ rw (fits, span-append p s t (rw fits at h) k) refl
  | inr other ↦ absurd (ground arith)
]

-- A scheme and what stands behind `://` in a URL, at least one byte each
pub record IsToken (letter : ℕ) (scheme : Text) (byte : ℕ) (tail : Text) : Type 0 where
  pub begins : is_letter letter ≡ true
  pub in_scheme : all is_scheme_char (letter ∷ scheme) ≡ true
  pub in_url : all is_url_char (byte ∷ tail) ≡ true

abbrev pub token : ℕ → Text → ℕ → Text → Text
token letter scheme byte tail = (letter ∷ scheme) ++ (slashes ++ (byte ∷ tail))

taken_if : (b : Bool) (o : Option (Text × Text)) → b ≡ true → (if b then o else none) ≡ o
taken_if true o h = refl
taken_if false o h = cc

match_url-letter :
    (c : ℕ) (s : Text)
    → is_letter c ≡ true
    → match_url (c ∷ s) ≡ after_scheme (span is_scheme_char (c ∷ s))
unfolding match_url
match_url-letter c s h = taken_if (is_letter c) (after_scheme (span is_scheme_char (c ∷ s))) h

after_scheme-found :
    (r : Text × Text) (scheme : Text) (byte : ℕ) (tail rest : Text)
    → r ≡ (scheme, slashes ++ ((byte ∷ tail) ++ rest))
    → span is_url_char ((byte ∷ tail) ++ rest) ≡ (byte ∷ tail, rest)
    → after_scheme r ≡ some (scheme ++ (slashes ++ (byte ∷ tail)), rest)
unfolding has_prefix drop
after_scheme-found r scheme byte tail rest h k =
    ap (λ (q : Text × Text). after_scheme q) h ∙ ap (λ (q : Text × Text). with_tail scheme q) k

colon : is_scheme_char b':' ≡ false
unfolding is_scheme_char
colon = refl

-- A URL at the start of a text is matched up to the first byte that a URL cannot have.
pub match_url-token :
    (letter : ℕ) (scheme : Text) (byte : ℕ) (tail rest : Text)
    → IsToken letter scheme byte tail
    → Stops is_url_char rest
    → match_url (token letter scheme byte tail ++ rest) ≡ some (token letter scheme byte tail, rest)
match_url-token letter scheme byte tail rest k stops =
    let behind = slashes ++ ((byte ∷ tail) ++ rest) in
    rw (append_assoc (letter ∷ scheme) (slashes ++ (byte ∷ tail)) rest) (
      match_url-letter letter (scheme ++ behind) k.begins
      ∙ after_scheme-found (span is_scheme_char ((letter ∷ scheme) ++ behind)) (letter ∷ scheme)
          byte tail rest (span-append is_scheme_char (letter ∷ scheme) behind k.in_scheme colon)
          (span-append is_url_char (byte ∷ tail) rest k.in_url stops))

pieces_within-match :
    (n c : ℕ) (s m rest : Text)
    → match_url (c ∷ s) ≡ some (m, rest)
    → pieces_within (suc n) (c ∷ s) ≡ matched m ∷ pieces_within n rest
unfolding pieces_within
pieces_within-match n c s m rest h =
    ap
      (λ (o : Option (Text × Text)). elim o as (λ x. List Piece) [
        | none ↦ between (c ∷ []) ∷ pieces_within n s
        | some (x, y) ↦ matched x ∷ pieces_within n y
      ])
      h

-- So a text that is a URL and nothing else is one match.
pub pieces-token :
    (letter : ℕ) (scheme : Text) (byte : ℕ) (tail : Text)
    → IsToken letter scheme byte tail
    → pieces (token letter scheme byte tail) ≡ matched (token letter scheme byte tail) ∷ []
unfolding pieces pieces_within
pieces-token letter scheme byte tail k =
    let url = token letter scheme byte tail in
    pieces_within-match (length (scheme ++ (slashes ++ (byte ∷ tail)))) letter
      (scheme ++ (slashes ++ (byte ∷ tail))) url []
      (ap (λ (t : Text). match_url t) (sym (append-nil url))
        ∙ match_url-token letter scheme byte tail [] k tt)
