-- ===== src/Failover/Loop/Missing.antt =====
-- Which methods are reported as supported by no provider (methodsWithoutProvider, internal/http.go).
use haprovider.Prelude.{
  ℕ, ◌≡◌, refl, Bool, false, not, ◌&&◌, ◌||◌, List, [], ◌∷◌, Text, text_eq, text_eq_iff, member,
  Bool-cases, inl, inr, arith,
}
use haprovider.Rpc.Message.{Request}
use haprovider.Core.Provider.{Provider}
use haprovider.Core.Provider.Methods.{supports, supports-supports_method}
use haprovider.Failover.Loop.{any_supports, missing_from, methods_without_provider}

-- Some provider supports the method, whatever its health.
abbrev pub any_can : List Provider → Text → ℕ → Bool
any_can [] m now = false
any_can (p ∷ ps) m now = supports p m now || any_can ps m now

abbrev pub methods : List Request → List Text
methods [] = []
methods (r ∷ rs) = r.method ∷ methods rs

any_supports-any_can :
    (ps : List Provider) (m : Text) (now : ℕ) → (any_supports ps m now).1 ≡ any_can ps m now
unfolding any_supports
any_supports-any_can [] m now = refl
any_supports-any_can (p ∷ ps) m now = ground (arith, any_supports-any_can ps m now)

-- Asking the providers changes no answer.
any_can-any_supports :
    (ps : List Provider) (m k : Text) (now : ℕ)
    → any_can (any_supports ps m now).0 k now ≡ any_can ps k now
unfolding any_supports
any_can-any_supports [] m k now = refl
any_can-any_supports (p ∷ ps) m k now =
    ground
      (arith, supports-supports_method p m k now now (omega arith), any_can-any_supports ps m k now)

member-missing_from :
    (ps : List Provider) (rs : List Request) (seen : List Text) (now : ℕ) (m : Text)
    → member m (missing_from ps rs seen now).1
      ≡ (member m (methods rs) && (not (member m seen) && not (any_can ps m now)))
unfolding missing_from member
member-missing_from ps [] seen now m = refl
member-missing_from ps (r ∷ rs) seen now m =
    let again = member-missing_from ps rs seen now m in
    let rest = member-missing_from (any_supports ps r.method now).0 rs (r.method ∷ seen) now m in
    let asked = any_supports-any_can ps r.method now in
    let kept = any_can-any_supports ps r.method m now in
    elim (Bool-cases (text_eq m r.method)) [
      | inl same ↦ let e : m ≡ r.method = (text_eq_iff m r.method).0 same in ground (arith, e)
      | inr other ↦ ground arith
    ]

-- The methods that a request is told to have no provider for are exactly those of its methods that
-- no provider supports, online or not.
pub member-methods_without_provider :
    (ps : List Provider) (rs : List Request) (now : ℕ) (m : Text)
    → member m (methods_without_provider ps rs now).1
      ≡ (member m (methods rs) && not (any_can ps m now))
unfolding methods_without_provider
member-methods_without_provider ps rs now m = ground (arith, member-missing_from ps rs [] now m)
