-- ===== src/Core/Provider/Health.antt =====
-- The health of a provider over any history of calls (internal/core/provider.go).
use haprovider.Prelude.{
  ℕ, ◌+◌, ◌≡◌, ◌≢◌, ◌<◌, true, false, List, [], ◌∷◌, Option, ℤ, Text, length, arith,
}
use haprovider.Rpc.Error.{Error}
use haprovider.Core.Provider.{
  Provider, mark_unhealthy, mark_healthy, mark_method_unsupported, supports_method,
  handle_too_many_requests, set_highest_block, set_client_version,
}

pub mark_unhealthy-is_offline :
    (p : Provider) (error : Error) (now : ℕ) → (mark_unhealthy p error now).online ≡ false
unfolding mark_unhealthy
mark_unhealthy-is_offline p error now = ground arith

-- A call that changes a provider, as the health checks and the request handlers make them.
pub data Call : Type 0 where
  unhealthy : Error → Call
  healthy : Call
  method_unsupported : Text → Call
  asked_for : Text → Call
  too_many : Option Text → Call
  highest : ℕ → Call
  version : Text → Call

pub apply : (ℤ → Text) → Provider → ℕ → Call → Provider
apply show p now (unhealthy e) = mark_unhealthy p e now
apply show p now healthy = mark_healthy p now
apply show p now (method_unsupported m) = mark_method_unsupported p m now
apply show p now (asked_for m) = (supports_method p m now).0
apply show p now (too_many h) = (handle_too_many_requests show p h now).0
apply show p now (highest b) = set_highest_block p b
apply show p now (version v) = set_client_version p v now

-- Each call with its time
pub history : (ℤ → Text) → Provider → List (ℕ × Call) → Provider
history show p [] = p
history show p ((now, c) ∷ cs) = history show (apply show p now c) cs

pub record IsValid (p : Provider) : Type 0 where
  -- the failures counted are those since the provider was last online
  pub online_no_attempt : p.online ≡ true → p.attempt ≡ 0
  -- there is a time of the last change once anything was counted or seen online
  pub online_changed : p.online ≡ true → p.last_state_change ≢ 0
  pub attempt_changed : 0 < p.attempt → p.last_state_change ≢ 0

apply-IsValid :
    (show : ℤ → Text) (p : Provider) (now : ℕ) (c : Call)
    → 0 < now
    → IsValid p
    → IsValid (apply show p now c)
unfolding apply mark_unhealthy mark_healthy mark_method_unsupported supports_method
    handle_too_many_requests set_highest_block set_client_version
apply-IsValid show p now (unhealthy e) t v = ground arith
apply-IsValid show p now healthy t v = ground arith
apply-IsValid show p now (method_unsupported m) t v = ground arith
apply-IsValid show p now (asked_for m) t v = ground arith
apply-IsValid show p now (too_many h) t v = ground arith
apply-IsValid show p now (highest b) t v = ground arith
apply-IsValid show p now (version w) t v = ground arith

abbrev pub AllPositive : List (ℕ × Call) → Type 0
AllPositive [] = Unit
AllPositive ((now, c) ∷ cs) = (0 < now) × AllPositive cs

-- After any calls at times past the zero time, a provider that started valid has counted no failed
-- attempt while it is online, and has a time of its last change if it is online or has counted one.
pub history-IsValid :
    (show : ℤ → Text) (p : Provider) (cs : List (ℕ × Call))
    → AllPositive cs
    → IsValid p
    → IsValid (history show p cs)
unfolding history
history-IsValid show p [] t v = v
history-IsValid show p ((now, c) ∷ cs) t v =
    history-IsValid show (apply show p now c) cs t.1 (apply-IsValid show p now c t.0 v)

-- Failures in a row, each with its time.
pub failures : Provider → List (ℕ × Error) → Provider
failures p [] = p
failures p ((now, e) ∷ es) = failures (mark_unhealthy p e now) es

-- One more failure of a provider that is offline.
mark_unhealthy-offline :
    (p : Provider) (e : Error) (now : ℕ)
    → p.online ≡ false
    → p.last_state_change ≢ 0
    → let q = mark_unhealthy p e now in
      (q.online ≡ false) × (q.attempt ≡ p.attempt + 1) × (q.last_state_change ≡ p.last_state_change)
unfolding mark_unhealthy
mark_unhealthy-offline p e now o l = ground arith

-- The first failure of a provider that is online.
mark_unhealthy-online :
    (p : Provider) (e : Error) (now : ℕ)
    → p.online ≡ true
    → let q = mark_unhealthy p e now in
      (q.online ≡ false) × (q.attempt ≡ p.attempt) × (q.last_state_change ≡ now)
unfolding mark_unhealthy
mark_unhealthy-online p e now o = ground arith

failures-offline :
    (p : Provider) (es : List (ℕ × Error))
    → p.online ≡ false
    → p.last_state_change ≢ 0
    → ((failures p es).online ≡ false)
      × ((failures p es).attempt ≡ p.attempt + length es)
      × ((failures p es).last_state_change ≡ p.last_state_change)
unfolding failures
failures-offline p [] o l = ground arith
failures-offline p ((now, e) ∷ es) o l =
    let q = mark_unhealthy p e now in
    let step = mark_unhealthy-offline p e now o l in
    let rest = failures-offline q es step.0 (ground arith) in ground arith

-- A valid provider that is online and then fails is lost at its first failure: it stays offline
-- through the further failures, each of which counts one attempt, and the time of the loss stays
-- that of the first.
pub failures-lost :
    (p : Provider) (now : ℕ) (e : Error) (es : List (ℕ × Error))
    → IsValid p
    → p.online ≡ true
    → 0 < now
    → let q = failures p ((now, e) ∷ es) in
      (q.online ≡ false) × (q.attempt ≡ length es) × (q.last_state_change ≡ now)
unfolding failures
failures-lost p now e es v o t =
    let step = mark_unhealthy-online p e now o in
    let rest = failures-offline (mark_unhealthy p e now) es step.0 (ground arith) in ground arith
