-- ===== src/Httpx/Body.antt =====
-- How much of an upstream body is read (internal/httpx/httpx.go).
use haprovider.Prelude.{
  ℕ, ◌+◌, ◌^◌, ◌≡◌, ◌<◌, refl, [], Option, none, pos, ltb, if◌then◌else◌, length, length-take_le,
  Text, arith,
}
use haprovider.Rpc.Error.{Error}
use haprovider.Rpc.Batch.{ok, err}
use haprovider.Core.Time.{wrap_i64}
use haprovider.Core.Endpoint.{Endpoint, get_max_response_size}
use haprovider.Httpx.{read_upstream_body, too_large}

wrap_i64-small : (n : ℕ) → n < 2 ^ 63 → wrap_i64 n ≡ pos n
wrap_i64-small n h = ground arith

-- With a positive limit that an int64 can exceed by one, a body that arrives whole is returned whole
-- if it is within the limit, and is an error otherwise: it is never cut short.
pub read_upstream_body-whole :
    (e : Endpoint) (body : Text) (n : ℕ)
    → get_max_response_size e ≡ pos n
    → 0 < n
    → n + 1 < 2 ^ 63
    → read_upstream_body e body none ≡ (if ltb n (length body) then err (too_large n) else ok body)
unfolding read_upstream_body
read_upstream_body-whole e body n limit positive small =
    rw (limit, read_upstream_body)
      (ground (arith, wrap_i64-small (n + 1) small, length-take_le (n + 1) body))

-- With the limit 2^63 - 1 the int64 sum limit + 1 is negative, and every body is read as empty.
pub read_upstream_body-overflow :
    (e : Endpoint) (body : Text) (broken : Option Error)
    → get_max_response_size e ≡ pos 9223372036854775807
    → read_upstream_body e body broken ≡ ok []
unfolding read_upstream_body
read_upstream_body-overflow e body broken limit = rw (limit, read_upstream_body) refl
