-- ===== src/Prelude/Split.antt =====
-- strings.Split at one byte, with what it does to texts that are joined again.
use Prim.Native.Nat.{ℕ}
use mathlib.Core.Path.{◌≡◌, refl}
use mathlib.Core.Logic.{inl, inr}
use mathlib.Core.Bool.{Bool, true, not}
use mathlib.Core.List.{List, [], ◌∷◌, ◌++◌}
use native.Mathlib.Omega.{arith}
use haprovider.Prelude.Tests.{◌==◌, Bool-cases, if◌then◌else◌}
use haprovider.Prelude.Lists.{all}
use haprovider.Prelude.Bytes.{Text, join, trim_left, trim_right, trim_space}

push : ℕ → List Text → List Text
push c [] = (c ∷ []) ∷ []
push c (p ∷ ps) = (c ∷ p) ∷ ps

unfoldable pub split : ℕ → Text → List Text
unfolding push
split sep [] = [] ∷ []
split sep (c ∷ s) = let rest = split sep s in if c == sep then [] ∷ rest else push c rest

abbrev pub lacks : ℕ → Text → Bool
lacks sep s = all (λ c. not (c == sep)) s

pub split-lacks : (sep : ℕ) (s : Text) → lacks sep s ≡ true → split sep s ≡ s ∷ []
unfolding split
split-lacks sep [] h = refl
split-lacks sep (c ∷ s) h = ground (arith, split-lacks sep s)

pub split-append :
    (sep : ℕ) (m r : Text) → lacks sep m ≡ true → split sep (m ++ sep ∷ r) ≡ m ∷ split sep r
unfolding split
split-append sep [] r h = ground arith
split-append sep (c ∷ m) r h = ground (arith, split-append sep m r)

-- Splitting undoes joining, where no part has the separator in it.
pub split-join :
    (sep : ℕ) (p : Text) (ps : List Text)
    → all (lacks sep) (p ∷ ps) ≡ true
    → split sep (join (sep ∷ []) (p ∷ ps)) ≡ p ∷ ps
unfolding join
split-join sep p [] h = split-lacks sep p (ground arith)
split-join sep p (q ∷ ps) h =
    ground (arith, split-append sep p (join (sep ∷ []) (q ∷ ps)), split-join sep q ps)

-- The text behind the last separator
unfoldable pub last : List Text → Text
last [] = []
last (p ∷ []) = p
last (p ∷ q ∷ ps) = last (q ∷ ps)

pub split-cons : (sep : ℕ) (s : Text) → (p : Text) × (ps : List Text) × (split sep s ≡ p ∷ ps)
unfolding split push
split-cons sep [] = ([], [], refl)
split-cons sep (c ∷ s) =
    let (p, ps, cons) = split-cons sep s in
    elim (Bool-cases (c == sep)) [
      | inl here ↦ ([], split sep s, rw here refl)
      | inr other ↦ (c ∷ p, ps, rw (other, cons) refl)
    ]

-- Behind a separator the split goes on as if it began there.
split-behind :
    (sep : ℕ) (m r : Text)
    → (p q : Text) × (ps : List Text) × (split sep (m ++ sep ∷ r) ≡ p ∷ q ∷ ps)
      × (last (q ∷ ps) ≡ last (split sep r))
unfolding split push last
split-behind sep [] r =
    let (q, ps, cons) = split-cons sep r in ([], q, ps, ground (arith, cons), ground (arith, cons))
split-behind sep (c ∷ m) r =
    let (p, q, ps, cons, same) = split-behind sep m r in
    elim (Bool-cases (c == sep)) [
      | inl here ↦ ([], p, q ∷ ps, rw (here, cons) refl, same)
      | inr other ↦ (c ∷ p, q, ps, rw (other, cons) refl, same)
    ]

pub last-split : (sep : ℕ) (m r : Text) → last (split sep (m ++ sep ∷ r)) ≡ last (split sep r)
unfolding last
last-split sep m r = let (p, q, ps, cons, same) = split-behind sep m r in rw cons same

-- strings.TrimSpace only removes bytes.
trim_left-lacks : (sep : ℕ) (s : Text) → lacks sep s ≡ true → lacks sep (trim_left s) ≡ true
unfolding trim_left
trim_left-lacks sep [] h = refl
trim_left-lacks sep (c ∷ s) h = ground (arith, trim_left-lacks sep s)

trim_right-lacks : (sep : ℕ) (s : Text) → lacks sep s ≡ true → lacks sep (trim_right s) ≡ true
unfolding trim_right
trim_right-lacks sep [] h = refl
trim_right-lacks sep (c ∷ s) h = ground (arith, trim_right-lacks sep s)

pub trim_space-lacks : (sep : ℕ) (s : Text) → lacks sep s ≡ true → lacks sep (trim_space s) ≡ true
unfolding trim_space
trim_space-lacks sep s h = trim_right-lacks sep (trim_left s) (trim_left-lacks sep s h)
