-- ===== src/Prelude/Outcome.antt =====
-- Go code that may panic, and Go code that may return an error instead of its value.
use Prim.Native.Nat.{suc}
use haprovider.Prelude.Lists.{length}
use mathlib.Core.Path.{◌≡◌, refl, ap}
use mathlib.Core.List.{List, [], ◌∷◌}
use mathlib.Core.Option.{Option, none, some}

-- A nil dereference, an index out of range or a double close ends in `panicked`.
pub data Outcome {ℓ} (A : Type ℓ) : Type ℓ where
  done : A → Outcome A
  panicked : Outcome A

infixl 5 ◌>>=◌
abbrev pub ◌>>=◌ {ℓ κ} : {A : Type ℓ} {B : Type κ} → Outcome A → (A → Outcome B) → Outcome B
done a >>= f = f a
panicked >>= f = panicked

-- Reading through a pointer.
abbrev pub deref {ℓ} : {A : Type ℓ} → Option A → Outcome A
deref none = panicked
deref (some a) = done a

-- Reading through every pointer of a slice, in order.
unfoldable pub deref_all {ℓ} : {A : Type ℓ} → List (Option A) → Outcome (List A)
deref_all [] = done []
deref_all (x ∷ xs) = do a ← deref x; rest ← deref_all xs; done (a ∷ rest)

-- P of the value, if there is one.
abbrev pub IfDone {ℓ κ} : {A : Type ℓ} → (A → Type κ) → Outcome A → Type κ
IfDone P (done a) = P a
IfDone P panicked = Unit

pub IfDone->>= {ℓ κ ℓ' κ'} :
    {A : Type ℓ} {B : Type ℓ'} (P : A → Type κ) (Q : B → Type κ') (m : Outcome A)
    (f : A → Outcome B)
    → IfDone P m
    → ((a : A) → P a → IfDone Q (f a))
    → IfDone Q (m >>= f)
IfDone->>= P Q (done a) f p next = next a p
IfDone->>= P Q panicked f p next = tt

pub IfDone-deref_all {ℓ} :
    {A : Type ℓ} (xs : List (Option A)) → IfDone (λ ys. length ys ≡ length xs) (deref_all xs)
unfolding deref_all
IfDone-deref_all [] = refl
IfDone-deref_all (none ∷ xs) = tt
IfDone-deref_all (some x ∷ xs) =
    IfDone->>= (λ ys. length ys ≡ length xs) (λ ys. length ys ≡ suc (length xs)) (deref_all xs)
      (λ rest. done (x ∷ rest)) (IfDone-deref_all xs) (λ ys e. ap suc e)

-- What follows does not depend on the value.
pub IfDone-map {ℓ κ ℓ'} :
    {A : Type ℓ} {B : Type ℓ'} (Q : B → Type κ) (m : Outcome A) (f : A → B)
    → ((a : A) → Q (f a))
    → IfDone Q (m >>= λ a. done (f a))
IfDone-map Q (done a) f h = h a
IfDone-map Q panicked f h = tt

-- The code does not panic, and ends in a value with P.
abbrev pub Ends {ℓ} : {A : Type ℓ} → (A → Type 0) → Outcome A → Type 0
Ends P (done a) = P a
Ends P panicked = ⊥

pub Ends->>= {ℓ ℓ'} :
    {A : Type ℓ} {B : Type ℓ'} (P : A → Type 0) (Q : B → Type 0) (m : Outcome A) (f : A → Outcome B)
    → Ends P m
    → ((a : A) → P a → Ends Q (f a))
    → Ends Q (m >>= f)
Ends->>= P Q (done a) f p next = next a p
Ends->>= P Q panicked f p next = absurd p

-- No pointer of the slice is nil.
abbrev pub NoNil {ℓ} : {A : Type ℓ} → List (Option A) → Type 0
NoNil [] = Unit
NoNil (none ∷ xs) = ⊥
NoNil (some x ∷ xs) = NoNil xs

pub Ends-deref_all {ℓ} :
    {A : Type ℓ} (xs : List (Option A))
    → NoNil xs
    → Ends (λ ys. length ys ≡ length xs) (deref_all xs)
unfolding deref_all
Ends-deref_all [] h = refl
Ends-deref_all (none ∷ xs) h = absurd h
Ends-deref_all (some x ∷ xs) h =
    Ends->>= (λ ys. length ys ≡ length xs) (λ ys. length ys ≡ suc (length xs)) (deref_all xs)
      (λ rest. done (x ∷ rest)) (Ends-deref_all xs h) (λ ys e. ap suc e)
