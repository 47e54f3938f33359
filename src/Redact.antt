-- ===== src/Redact.antt =====
-- internal/redact/redact.go: what is left of a text before it is logged. url.Parse is a parameter. The
-- pattern urlRe is written out over bytes, without the two letters outside ASCII that (?i) folds into
-- a-z.
pub mod Pieces
pub mod Hidden
use haprovider.Prelude.{
  ℕ, zero, suc, Bool, true, false, not, ◌&&◌, ◌||◌, List, [], ◌∷◌, ◌++◌, Option, none, some, leb,
  ◌==◌, if◌then◌else◌, is_empty, length, drop, Text, text, contains, has_prefix, trim_space,
}

-- The parts of a url.URL
pub record Url : Type 0 where
  pub scheme : Text
  pub user : Text
  pub host : Text
  pub path : Text
  pub query : Text
  pub fragment : Text

-- A part of a text: not matched by urlRe, or a match
pub data Piece : Type 0 where
  between : Text → Piece
  matched : Text → Piece

-- The classes of urlRe: (?i)[a-z], (?i)[a-z0-9+.\-] and [^\s"'`<>\\]
unfoldable pub is_letter : ℕ → Bool
is_letter c = (leb 65 c && leb c 90) || (leb 97 c && leb c 122)

unfoldable pub is_scheme_char : ℕ → Bool
unfolding is_letter
is_scheme_char c =
    is_letter c || ((leb 48 c && leb c 57) || ((c == b'+') || ((c == b'.') || (c == b'-'))))

unfoldable pub is_url_char : ℕ → Bool
is_url_char c = not (
    (c == 9)
    || ((c == 10)
        || ((c == 12)
            || ((c == 13)
                || ((c == 32)
                    || ((c == 34)
                        || ((c == 39)
                            || ((c == 96) || ((c == 60) || ((c == 62) || (c == 92)))))))))))

-- The longest prefix of bytes in a class, and the rest
unfoldable pub span : (ℕ → Bool) → Text → Text × Text
span p [] = ([], [])
span p (c ∷ s) = let r = span p s in if p c then (c ∷ r.0, r.1) else ([], c ∷ s)

abbrev pub with_tail : Text → Text × Text → Option (Text × Text)
with_tail scheme ([], rest) = none
with_tail scheme (c ∷ tail, rest) = some (scheme ++ (b':' ∷ b'/' ∷ b'/' ∷ c ∷ tail), rest)

abbrev pub after_scheme : Text × Text → Option (Text × Text)
after_scheme (scheme, rest) =
    if has_prefix rest (b':' ∷ b'/' ∷ b'/' ∷ [])
    then with_tail scheme (span is_url_char (drop 3 rest))
    else none

-- A match of urlRe at the start of a text, and the rest: no byte of `://` is in the class before it.
unfoldable pub match_url : Text → Option (Text × Text)
unfolding span is_letter is_scheme_char is_url_char has_prefix drop
match_url [] = none
match_url (c ∷ s) = if is_letter c then after_scheme (span is_scheme_char (c ∷ s)) else none

-- The matches from the left, which do not overlap; a text needs no more rounds than it has bytes.
unfoldable pub pieces_within : ℕ → Text → List Piece
unfolding match_url
pieces_within n [] = []
pieces_within zero (c ∷ s) = between (c ∷ s) ∷ []
pieces_within (suc n) (c ∷ s) = elim (match_url (c ∷ s)) [
  | none ↦ between (c ∷ []) ∷ pieces_within n s
  | some (m, rest) ↦ matched m ∷ pieces_within n rest
]

unfoldable pub pieces : Text → List Piece
unfolding pieces_within
pieces s = pieces_within (length s) s

-- The value of a log attribute: a string, an error by its text, or anything else
pub data Value : Type 0 where
  string_value : Text → Value
  error_value : Text → Value
  other_value : Value

unfoldable pub reduced : Option Url → Text
unfolding text
reduced none = text "[redacted]"
reduced (some u) =
    if is_empty u.scheme || is_empty u.host
    then text "[redacted]"
    else u.scheme ++ (text "://" ++ u.host)

module _ (parse : Text → Option Url) where
  -- URL
  unfoldable pub redact_url : Text → Text
  unfolding trim_space reduced
  redact_url raw = reduced (parse (trim_space raw))

  -- ReplaceAllStringFunc with URL
  replaced : List Piece → Text
  unfolding redact_url
  replaced [] = []
  replaced (between t ∷ ps) = t ++ replaced ps
  replaced (matched t ∷ ps) = redact_url t ++ replaced ps

  -- String
  unfoldable pub redact_string : Text → Text
  unfolding contains replaced text pieces
  redact_string s = if contains s (text "://") then replaced (pieces s) else s

  -- Attr
  unfoldable pub redact_attr : Value → Value
  unfolding contains redact_string text
  redact_attr (string_value s) =
      if contains s (text "://") then string_value (redact_string s) else string_value s
  redact_attr (error_value s) =
      if contains s (text "://") then string_value (redact_string s) else error_value s
  redact_attr other_value = other_value
