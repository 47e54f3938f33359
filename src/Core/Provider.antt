-- ===== src/Core/Provider.antt =====
-- internal/core/provider.go. A method that changes a provider returns the new one; `now` is what
-- time.Now reads in it, once for each call. The mutex makes each call one step.
pub mod Health
pub mod RateLimit
pub mod Methods
use haprovider.Prelude.{
  ℕ, suc, ◌+◌, ◌-◌, ◌*◌, ◌&&◌, Bool, true, false, List, [], ◌∷◌, ◌++◌, Option, none, some, ℤ, pos,
  negsuc, ltb, ◌==◌, if◌then◌else◌, is_empty, is_positive, Text, text, text_eq, Dict, lookup,
  delete, insert,
}
use haprovider.Core.Time.{second, minute, hour, add_duration, wrap_i64, atoi}
use haprovider.Rpc.Error.{Error, rate_limited}

abbrev pub default_rate_limit_backoff : ℕ
default_rate_limit_backoff = 30 * second

abbrev pub default_node_version_retention : ℕ
default_node_version_retention = hour

abbrev pub default_connection_timeout : ℕ
default_connection_timeout = 10 * second

abbrev pub default_unsupported_method_ttl : ℕ
default_unsupported_method_ttl = 30 * minute

pub record Provider : Type 0 where
  pub name : Text
  pub http : Text
  pub ws : Text
  pub timeout : ℤ
  pub rate_limited_until : ℕ
  pub attempt : ℕ
  pub online : Bool
  pub last_state_change : ℕ
  pub highest_block : ℕ
  pub client_version : Text
  pub versions_seen : Dict ℕ
  pub unsupported_methods : Dict ℕ

-- A provider as the configuration gives it.
abbrev pub fresh_provider : Text → Text → Text → Provider
fresh_provider name http ws = record {
  name = name;
  http = http;
  ws = ws;
  timeout = pos 0;
  rate_limited_until = 0;
  attempt = 0;
  online = false;
  last_state_change = 0;
  highest_block = 0;
  client_version = [];
  versions_seen = [];
  unsupported_methods = [];
}

-- GetTimeout
unfoldable pub get_timeout : Provider → ℤ
get_timeout p = if is_positive p.timeout then p.timeout else pos default_connection_timeout

-- The backoff of MarkUnhealthy: RetryAfter if it is positive.
abbrev pub backoff : ℤ → ℕ
backoff (pos n) = if ltb 0 n then n else default_rate_limit_backoff
backoff (negsuc n) = default_rate_limit_backoff

-- The part of MarkUnhealthy under errors.As(err, &rl)
abbrev note_rate_limit : Provider → Error → ℕ → Provider
note_rate_limit p (rate_limited message retry_after) now = record p {
  rate_limited_until = now + backoff retry_after;
}
note_rate_limit p _ now = p

-- MarkUnhealthy
unfoldable pub mark_unhealthy : Provider → Error → ℕ → Provider
mark_unhealthy p e now =
    let q = note_rate_limit p e now in
    if q.online then record q { last_state_change = now; online = false } else record q {
      attempt = q.attempt + 1;
      last_state_change = if q.last_state_change == 0 then now else q.last_state_change;
    }

-- MarkHealthy
unfoldable pub mark_healthy : Provider → ℕ → Provider
mark_healthy p now =
    if p.online
    then p
    else record p { online = true; last_state_change = now; attempt = 0; rate_limited_until = 0 }

-- MarkMethodUnsupported
unfoldable pub mark_method_unsupported : Provider → Text → ℕ → Provider
mark_method_unsupported p method now =
    if is_empty method
    then p
    else record p { unsupported_methods = insert method now p.unsupported_methods }

-- SupportsMethod: it clears a flag that has passed its time to live.
supports_flag : Provider → Text → ℕ → Option ℕ → Provider × Bool
supports_flag p method now none = (p, true)
supports_flag p method now (some t) =
    if ltb default_unsupported_method_ttl (now - t)
    then (record p { unsupported_methods = delete method p.unsupported_methods }, true)
    else (p, false)

unfoldable pub supports_method : Provider → Text → ℕ → Provider × Bool
unfolding supports_flag
supports_method p method now = supports_flag p method now (lookup method p.unsupported_methods)

-- The duration that HandleTooManyRequests takes from a Retry-After header of whole seconds, if that
-- is a positive integer. The product of an int64 wraps.
abbrev pub seconds_duration : Option ℤ → Option ℤ
seconds_duration none = none
seconds_duration (some (negsuc n)) = none
seconds_duration (some (pos n)) = if ltb 0 n then some (wrap_i64 (n * second)) else none

-- HandleTooManyRequests: `header` is the response's Retry-After, empty if it has none, and `none`
-- if there is no response; `show` prints a duration, rounded to milliseconds.
too_many_requests : (ℤ → Text) → Provider → Option ℤ → ℕ → Provider × Error
unfolding text
too_many_requests show p none now = (
  record p { rate_limited_until = now + default_rate_limit_backoff },
  rate_limited (text "too many requests") (pos default_rate_limit_backoff),
)
too_many_requests show p (some d) now = (
  record p { rate_limited_until = add_duration now d },
  rate_limited (text "retry after " ++ show d) d,
)

abbrev header_seconds : Option Text → Option ℤ
header_seconds none = none
header_seconds (some header) = seconds_duration (atoi header)

unfoldable pub handle_too_many_requests : (ℤ → Text) → Provider → Option Text → ℕ → Provider × Error
unfolding too_many_requests
handle_too_many_requests show p header now = too_many_requests show p (header_seconds header) now

-- SetHighestBlock
unfoldable pub set_highest_block : Provider → ℕ → Provider
set_highest_block p b = record p { highest_block = b }

-- The loop of SetClientVersion that forgets versions not seen for a while
unfoldable pub forget_old : ℕ → Dict ℕ → Dict ℕ
forget_old now [] = []
forget_old now ((k, t) ∷ m) =
    let rest = forget_old now m in
    if ltb default_node_version_retention (now - t) then rest else (k, t) ∷ rest

-- SetClientVersion
unfoldable pub set_client_version : Provider → Text → ℕ → Provider
unfolding forget_old
set_client_version p v now = record p {
  versions_seen = insert v now (forget_old now p.versions_seen);
  client_version = v;
}
