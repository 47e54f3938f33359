-- ===== src/Redact/Hidden.antt =====
-- What a log cannot show (internal/redact/redact.go).
use haprovider.Prelude.{
  Option, none, some, length, ◌≡◌, refl, ap, ◌⊎◌, inl, inr, true, List, [], ◌∷◌, ◌++◌, Text, text,
  contains, trim_space,
}
use haprovider.Redact.Pieces.{
  whole, AllUrls, contains-append-left, contains-append-right, whole-pieces_within,
  pieces_within-AllUrls,
}
use haprovider.Redact.{
  Url, reduced, pieces, Piece, between, matched, Value, string_value, error_value, other_value,
  redact_url, replaced, redact_string, redact_attr,
}

-- What is to be shown of a URL: its scheme and its host, if it has both
abbrev pub shown : Option Url → Text
shown none = text "[redacted]"
shown (some u) = elim u.scheme [
  | [] ↦ text "[redacted]"
  | c ∷ scheme ↦ elim u.host [
    | [] ↦ text "[redacted]"
    | d ∷ host ↦ (c ∷ scheme) ++ (text "://" ++ (d ∷ host))
  ]
]

module _ (parse : Text → Option Url) where
  -- Two URLs of the same scheme and host, or two texts that do not parse; all else may differ.
  abbrev pub SameHost : Option Url → Option Url → Type 0
  SameHost none none = Unit
  SameHost (some u) (some v) = (u.scheme ≡ v.scheme) × (u.host ≡ v.host)
  SameHost _ _ = ⊥

  -- The same text round such URLs
  abbrev pub SameHosts : List Piece → List Piece → Type 0
  SameHosts [] [] = Unit
  SameHosts (between s ∷ ps) (between t ∷ qs) = (s ≡ t) × SameHosts ps qs
  SameHosts (matched s ∷ ps) (matched t ∷ qs) =
      SameHost (parse (trim_space s)) (parse (trim_space t)) × SameHosts ps qs
  SameHosts _ _ = ⊥

  abbrev pub SameValues : Value → Value → Type 0
  SameValues (string_value s) (string_value t) = SameHosts (pieces s) (pieces t)
  SameValues (error_value s) (error_value t) = SameHosts (pieces s) (pieces t)
  SameValues other_value other_value = Unit
  SameValues _ _ = ⊥

  reduced-SameHost : (u v : Option Url) → SameHost u v → reduced u ≡ reduced v
  unfolding reduced
  reduced-SameHost none none h = refl
  reduced-SameHost (some u) (some v) h = rw (h.0, h.1) refl
  reduced-SameHost none (some v) h = absurd h
  reduced-SameHost (some u) none h = absurd h

  replaced-SameHosts :
      (ps qs : List Piece) → SameHosts ps qs → replaced parse ps ≡ replaced parse qs
  unfolding replaced redact_url
  replaced-SameHosts [] [] h = refl
  replaced-SameHosts (between s ∷ ps) (between t ∷ qs) h =
      rw (h.0, replaced-SameHosts ps qs h.1) refl
  replaced-SameHosts (matched s ∷ ps) (matched t ∷ qs) h =
      rw
        (
          reduced-SameHost (parse (trim_space s)) (parse (trim_space t)) h.0,
          replaced-SameHosts ps qs h.1,
        )
        refl
  replaced-SameHosts [] (between t ∷ qs) h = absurd h
  replaced-SameHosts [] (matched t ∷ qs) h = absurd h
  replaced-SameHosts (between s ∷ ps) [] h = absurd h
  replaced-SameHosts (between s ∷ ps) (matched t ∷ qs) h = absurd h
  replaced-SameHosts (matched s ∷ ps) [] h = absurd h
  replaced-SameHosts (matched s ∷ ps) (between t ∷ qs) h = absurd h

  -- Either both have a URL, or they are the same text.
  abbrev Alike : Text → Text → Type 0
  Alike s t = ((contains s (text "://") ≡ true) × (contains t (text "://") ≡ true)) ⊎ (s ≡ t)

  Alike-behind : (s t u : Text) → Alike t u → Alike (s ++ t) (s ++ u)
  Alike-behind s t u (inl h) =
      inl (contains-append-right s t (text "://") h.0, contains-append-right s u (text "://") h.1)
  Alike-behind s t u (inr e) = inr (ap (λ (v : Text). s ++ v) e)

  whole-Alike :
      (ps qs : List Piece) → SameHosts ps qs → AllUrls ps → AllUrls qs → Alike (whole ps) (whole qs)
  unfolding whole text
  whole-Alike [] [] h k l = inr refl
  whole-Alike (between s ∷ ps) (between t ∷ qs) h k l =
      rw h.0 (Alike-behind t (whole ps) (whole qs) (whole-Alike ps qs h.1 k l))
  whole-Alike (matched s ∷ ps) (matched t ∷ qs) h k l = inl (
    contains-append-left s (whole ps) (text "://") k.0,
    contains-append-left t (whole qs) (text "://") l.0,
  )
  whole-Alike [] (between t ∷ qs) h k l = absurd h
  whole-Alike [] (matched t ∷ qs) h k l = absurd h
  whole-Alike (between s ∷ ps) [] h k l = absurd h
  whole-Alike (between s ∷ ps) (matched t ∷ qs) h k l = absurd h
  whole-Alike (matched s ∷ ps) [] h k l = absurd h
  whole-Alike (matched s ∷ ps) (between t ∷ qs) h k l = absurd h

  alike : (s t : Text) → SameHosts (pieces s) (pieces t) → Alike s t
  unfolding pieces
  alike s t h =
      let both =
        whole-Alike (pieces s) (pieces t) h (pieces_within-AllUrls (length s) s)
          (pieces_within-AllUrls (length t) t) in
      rw (whole-pieces_within (length s) s, whole-pieces_within (length t) t) at both

  -- Two strings or two errors, in which urlRe finds URLs of the same schemes and hosts with the same text
  -- round them, are logged as the same: nothing that is logged depends on the credentials, the path,
  -- the query or the fragment that url.Parse reads in a URL.
  pub redact_attr-SameValues :
      (v w : Value) → SameValues v w → redact_attr parse v ≡ redact_attr parse w
  unfolding redact_attr redact_string
  redact_attr-SameValues (string_value s) (string_value t) h = elim (alike s t h) [
    | inl both ↦
        rw both.0 (rw both.1 (ap string_value (replaced-SameHosts (pieces s) (pieces t) h)))
    | inr same ↦ rw same refl
  ]
  redact_attr-SameValues (error_value s) (error_value t) h = elim (alike s t h) [
    | inl both ↦
        rw both.0 (rw both.1 (ap string_value (replaced-SameHosts (pieces s) (pieces t) h)))
    | inr same ↦ rw same refl
  ]
  redact_attr-SameValues other_value other_value h = refl
  redact_attr-SameValues (string_value s) (error_value t) h = absurd h
  redact_attr-SameValues (string_value s) other_value h = absurd h
  redact_attr-SameValues (error_value s) (string_value t) h = absurd h
  redact_attr-SameValues (error_value s) other_value h = absurd h
  redact_attr-SameValues other_value (string_value t) h = absurd h
  redact_attr-SameValues other_value (error_value t) h = absurd h
