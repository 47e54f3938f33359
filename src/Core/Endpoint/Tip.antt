-- ===== src/Core/Endpoint/Tip.antt =====
-- The highest block that the providers of an endpoint have reported (internal/core/endpoint.go).
use haprovider.Prelude.{ℕ, ◌≡◌, ◌≤◌, ◌⊎◌, inl, inr, List, [], ◌∷◌, arith}
use haprovider.Core.Endpoint.{Endpoint, observe_block}

pub observe_all : Endpoint → List ℕ → Endpoint
observe_all e [] = e
observe_all e (h ∷ hs) = observe_all (observe_block e h) hs

abbrev pub AllAtMost : ℕ → List ℕ → Type 0
AllAtMost n [] = Unit
AllAtMost n (h ∷ hs) = (h ≤ n) × AllAtMost n hs

abbrev pub IsOneOf : ℕ → List ℕ → Type 0
IsOneOf n [] = ⊥
IsOneOf n (h ∷ hs) = (n ≡ h) ⊎ IsOneOf n hs

observe_all-grows :
    (e : Endpoint) (hs : List ℕ) → e.highest_block ≤ (observe_all e hs).highest_block
unfolding observe_all observe_block
observe_all-grows e [] = omega arith
observe_all-grows e (h ∷ hs) = ground (arith, observe_all-grows (observe_block e h) hs)

observe_block-at_least : (e : Endpoint) (h : ℕ) → h ≤ (observe_block e h).highest_block
unfolding observe_block
observe_block-at_least e h = ground arith

observe_all-bounds : (e : Endpoint) (hs : List ℕ) → AllAtMost (observe_all e hs).highest_block hs
unfolding observe_all
observe_all-bounds e [] = tt
observe_all-bounds e (h ∷ hs) = (
  omega (arith, observe_block-at_least e h, observe_all-grows (observe_block e h) hs),
  observe_all-bounds (observe_block e h) hs,
)

observe_all-reached :
    (e : Endpoint) (hs : List ℕ)
    → ((observe_all e hs).highest_block ≡ e.highest_block)
      ⊎ IsOneOf (observe_all e hs).highest_block hs
unfolding observe_all observe_block
observe_all-reached e [] = ground arith
observe_all-reached e (h ∷ hs) = elim (observe_all-reached (observe_block e h) hs) [
  | inl same ↦ ground arith
  | inr later ↦ inr (inr later)
]

-- After any heights were observed, in any order, the tip is their maximum together with the old
-- tip: it is at least each of them, never falls, and is one of them if it rose.
pub observe_all-max :
    (e : Endpoint) (hs : List ℕ)
    → let tip = (observe_all e hs).highest_block in
      AllAtMost tip hs × (e.highest_block ≤ tip) × ((tip ≡ e.highest_block) ⊎ IsOneOf tip hs)
observe_all-max e hs = (observe_all-bounds e hs, observe_all-grows e hs, observe_all-reached e hs)
