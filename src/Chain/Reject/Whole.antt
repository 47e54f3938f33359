-- ===== src/Chain/Reject/Whole.antt =====
-- A request is let through or rejected as a whole (internal/chain/chain.go).
use haprovider.Prelude.{
  ◌≡◌, inl, inr, refl, Bool, false, List, [], ◌∷◌, map, Option, none, some, all, if◌then◌else◌,
  Bool-cases, arith,
}
use haprovider.Prelude.Outcome.{done, panicked, ◌>>=◌, deref_all}
use haprovider.Rpc.Message.{Request}
use haprovider.Rpc.Json.{Json}
use haprovider.Chain.{Chain}
use haprovider.Chain.Methods.{allow_method}
use haprovider.Chain.Reject.{all_allowed, rejections, rejection, reject_disallowed}

abbrev pub allowed : Chain → Request → Bool
allowed c r = allow_method c r.method

-- The first loop either sees every request, or stops at one before the nil that it would meet.
data Scan (c : Chain) (rs : List (Option Request)) : Type 0 where
  whole :
      (reqs : List Request)
      → deref_all rs ≡ done reqs
      → all_allowed c rs ≡ done (all (allowed c) reqs)
      → Scan c rs
  nil_met : deref_all rs ≡ panicked → all_allowed c rs ≡ panicked → Scan c rs
  nil_after : deref_all rs ≡ panicked → all_allowed c rs ≡ done false → Scan c rs

scan-cons :
    (c : Chain) (r : Request) (rs : List (Option Request)) → Scan c rs → Scan c (some r ∷ rs)
unfolding deref_all all_allowed
scan-cons c r rs (whole reqs d a) = whole (r ∷ reqs) (rw d) (ground arith)
scan-cons c r rs (nil_met d a) = elim (Bool-cases (allowed c r)) [
  | inl yes_it ↦ nil_met (rw d) (rw (yes_it, a))
  | inr not_it ↦ nil_after (rw d) (rw not_it)
]
scan-cons c r rs (nil_after d a) = nil_after (rw d) (ground arith)

scan : (c : Chain) (rs : List (Option Request)) → Scan c rs
unfolding deref_all all_allowed
scan c [] = whole [] refl refl
scan c (none ∷ rs) = nil_met refl refl
scan c (some r ∷ rs) = scan-cons c r rs (scan c rs)

module _ (json : Json) where
  rejections-map :
      (c : Chain) (rs : List (Option Request))
      → rejections json c rs ≡ (deref_all rs >>= λ reqs. done (map (rejection json c) reqs))
  unfolding deref_all rejections
  rejections-map c [] = refl
  rejections-map c (none ∷ rs) = refl
  rejections-map c (some r ∷ rs) = ground (arith, rejections-map c rs)

  -- With a chain, a request passes exactly when the method of each of its members is allowed, and
  -- otherwise every member gets a response of its own, in order. A nil member makes it panic.
  pub reject_disallowed-whole :
      (c : Chain) (rs : List (Option Request))
      → reject_disallowed json (some c) rs ≡ (
          deref_all rs >>= λ reqs.
          done (if all (allowed c) reqs then none else some (map (rejection json c) reqs)))
  unfolding reject_disallowed
  reject_disallowed-whole c rs = elim (scan c rs) [
    | whole reqs d a ↦
        rw (d, a)
          (elim (Bool-cases (all (allowed c) reqs)) [
            | inl every ↦ rw every refl
            | inr some_not ↦ rw (some_not, rejections-map c rs, d) refl
          ])
    | nil_met d a ↦ rw (d, a) refl
    | nil_after d a ↦ rw (d, a, rejections-map c rs) (rw d refl)
  ]
