-- ===== src/Core/Provider/Methods.antt =====
-- Methods that a provider does not support (internal/core/provider.go).
use haprovider.Prelude.{
  ℕ, ◌-◌, ◌≡◌, ◌≢◌, ◌≤◌, Bool, [], Text, text_eq, text_eq_iff, lookup-insert, lookup-delete, ltb,
  if◌then◌else◌, arith,
}
use haprovider.Rpc.Error.{Error}
use haprovider.Core.Provider.{
  Provider, default_unsupported_method_ttl, mark_unhealthy, mark_healthy, mark_method_unsupported,
  supports_method,
}

-- The answer of SupportsMethod
abbrev pub supports : Provider → Text → ℕ → Bool
supports p method now = (supports_method p method now).1

-- Flagging a method at time t makes the provider skipped for it until 30 minutes have passed, and
-- changes the answer for no other method.
pub supports-mark_method_unsupported :
    (p : Provider) (method k : Text) (t now : ℕ)
    → method ≢ []
    → supports (mark_method_unsupported p method t) k now ≡ (
        if text_eq method k then ltb default_unsupported_method_ttl (now - t) else supports p k now)
unfolding supports_method mark_method_unsupported
supports-mark_method_unsupported p method k t now h =
    ground (arith, lookup-insert method k t p.unsupported_methods)

-- Asking is harmless: it clears a flag only if the answer was yes already, and changes no answer,
-- for any method at the same time or later.
pub supports-supports_method :
    (p : Provider) (method k : Text) (now later : ℕ)
    → now ≤ later
    → supports (supports_method p method now).0 k later ≡ supports p k later
unfolding supports_method
supports-supports_method p method k now later h =
    ground (arith, lookup-delete method k p.unsupported_methods, text_eq_iff method k)

-- What a provider can do is independent of its health: neither losing it nor finding it healthy
-- changes an answer.
pub supports-health :
    (p : Provider) (e : Error) (k : Text) (t now : ℕ)
    → (supports (mark_unhealthy p e t) k now ≡ supports p k now)
      × (supports (mark_healthy p t) k now ≡ supports p k now)
unfolding supports_method mark_unhealthy mark_healthy
supports-health p e k t now = (ground arith, ground arith)
