-- ===== src/Core/Provider/RateLimit.antt =====
-- Backing off from a provider that limits our rate (internal/core/provider.go).
use haprovider.Prelude.{
  ℕ, ◌+◌, ◌*◌, ◌≡◌, ◌≤◌, ◌<◌, refl, Option, none, some, ℤ, pos, negsuc, Text, text, ◌++◌,
  is_positive, if◌then◌else◌, arith,
}
use haprovider.Rpc.Error.{rate_limited}
use haprovider.Core.Time.{second, atoi}
use haprovider.Core.Provider.{
  Provider, seconds_duration, default_rate_limit_backoff, backoff, mark_unhealthy, mark_healthy,
  handle_too_many_requests,
}

-- A rate-limit error always puts the next check after now: by its own delay if that is positive, and
-- by the default of 30 seconds otherwise.
pub mark_unhealthy-backoff :
    (p : Provider) (message : Text) (d : ℤ) (now : ℕ)
    → let q = mark_unhealthy p (rate_limited message d) now in
      (now < q.rate_limited_until)
      × (q.rate_limited_until
          ≡ now + (if is_positive d then backoff d else default_rate_limit_backoff))
unfolding mark_unhealthy
mark_unhealthy-backoff p message d now = ground arith

-- The largest number of seconds whose duration is still an int64.
abbrev pub max_seconds : ℕ
max_seconds = 9223372036

duration-exact :
    (header : Text) (n : ℕ)
    → atoi header ≡ some (pos n)
    → 0 < n
    → n ≤ max_seconds
    → seconds_duration (atoi header) ≡ some (pos (n * second))
duration-exact header n parsed positive small = ground arith

-- A Retry-After header that is a positive number of seconds, up to 9223372036, is honoured exactly:
-- the provider waits that long, and the error carries the same delay.
pub handle_too_many_requests-exact :
    (show : ℤ → Text) (p : Provider) (header : Text) (n now : ℕ)
    → atoi header ≡ some (pos n)
    → 0 < n
    → n ≤ max_seconds
    → let (q, e) = handle_too_many_requests show p (some header) now in
      (q.rate_limited_until ≡ now + n * second)
      × ((message : Text) × (e ≡ rate_limited message (pos (n * second))))
unfolding handle_too_many_requests
handle_too_many_requests-exact show p header n now parsed positive small =
    let e = duration-exact header n parsed positive small in
    (rw e refl, (text "retry after " ++ show (pos (n * second)), rw e refl))

-- How long a Retry-After header has a provider wait, in nanoseconds
pub data Asks : Option Text → ℕ → Type 0 where
  -- a positive number of seconds whose duration is an int64
  seconds :
      (header : Text) (n : ℕ)
      → atoi header ≡ some (pos n)
      → 0 < n
      → n ≤ max_seconds
      → Asks (some header) (n * second)
  -- a larger number, whose duration overflows and is negative: the default
  overflows :
      (header : Text) (n : ℕ)
      → atoi header ≡ some (pos n)
      → max_seconds < n
      → n ≤ 18446744073
      → Asks (some header) default_rate_limit_backoff
  -- no header, one that is no number, or one that is not positive: the default
  missing : Asks none default_rate_limit_backoff
  unread : (header : Text) → atoi header ≡ none → Asks (some header) default_rate_limit_backoff
  zero_seconds :
      (header : Text) → atoi header ≡ some (pos 0) → Asks (some header) default_rate_limit_backoff
  negative :
      (header : Text) (n : ℕ)
      → atoi header ≡ some (negsuc n)
      → Asks (some header) default_rate_limit_backoff

-- Coming back online clears the rate limit; a provider that is online already keeps it.
pub mark_healthy-clears :
    (p : Provider) (now : ℕ)
    → (mark_healthy p now).rate_limited_until ≡ (if p.online then p.rate_limited_until else 0)
unfolding mark_healthy
mark_healthy-clears p now = ground arith
