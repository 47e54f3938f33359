-- ===== src/Httpx.antt =====
-- internal/httpx/httpx.go: one request to a provider. What net/http gets back for it is an argument,
-- a function of its URL and body; Httpx/Headers has the headers that SendHTTPRequest sets.
pub mod Body
pub mod Health
pub mod Total
pub mod ClientIp
pub mod Forward
pub mod Headers
use haprovider.Prelude.{
  ℕ, ◌+◌, Bool, true, false, ◌&&◌, ◌||◌, not, List, [], ◌∷◌, ◌++◌, Option, none, some, ℤ, pos,
  negsuc, ltb, ◌==◌, if◌then◌else◌, length, take, Text, text, has_suffix, decimal,
}
use haprovider.Prelude.Outcome.{Outcome, done, panicked, ◌>>=◌, deref}
use haprovider.Rpc.Error.{
  error_message, Error, rate_limited, method_not_supported, status, failure, code_method_not_found,
}
use haprovider.Rpc.Message.{Request, Response, is_error}
use haprovider.Rpc.Json.{Json}
use haprovider.Rpc.Batch.{
  BatchResponse, Result, ok, err, serialize_batch_request, decode_batch_response,
}
use haprovider.Core.Time.{wrap_i64}
use haprovider.Core.Provider.{Provider, handle_too_many_requests}
use haprovider.Core.Endpoint.{Endpoint, Kind, get_max_response_size}

-- What client.Do returns: an error, or a response with its Retry-After header and its body. A body
-- may end in a read error.
pub data Reply : Type 0 where
  no_reply : Error → Reply
  reply : (code : ℕ) (retry_after body : Text) (broken : Option Error) → Reply

-- A POST of a body to a URL, as the provider answers it.
abbrev pub Upstream : Type 0
Upstream = Text → Text → Reply

abbrev read_all : Text → Option Error → Result Text
read_all body none = ok body
read_all body (some e) = err e

unfoldable pub too_large : ℕ → Error
unfolding text decimal
too_large limit = failure (
    text "upstream response exceeded max_response_size ("
    ++ (decimal (pos limit) ++ text " bytes)"))

-- io.LimitReader: an error of the body behind the limit is not met, and a limit below 1 reads none.
read_limited : ℤ → Text → Option Error → Result Text
read_limited (negsuc m) body broken = ok []
read_limited (pos w) body broken =
    if ltb (length body) w then read_all body broken else ok (take w body)

checked_length : ℕ → Result Text → Result Text
unfolding too_large
checked_length limit (err e) = err e
checked_length limit (ok b) = if ltb limit (length b) then err (too_large limit) else ok b

read_within : ℤ → Text → Option Error → Result Text
unfolding read_limited checked_length
read_within (negsuc m) body broken = read_all body broken
read_within (pos n) body broken =
    if n == 0
    then read_all body broken
    else checked_length n (read_limited (wrap_i64 (n + 1)) body broken)

-- readUpstreamBody
unfoldable pub read_upstream_body : Endpoint → Text → Option Error → Result Text
unfolding read_within
read_upstream_body e body broken = read_within (get_max_response_size e) body broken

-- The switch on the status, once the body is read
by_status : (ℤ → Text) → Provider → ℕ → Text → ℕ → Text → Provider × Text × Option Error
by_status show p code retry_after now b =
    if code == 200
    then (p, b, none)
    else if code == 429 || code == 402
    then (let (q, e) = handle_too_many_requests show p (some retry_after) now in (q, b, some e))
    else (p, b, some (status code))

on_body : (ℤ → Text) → Provider → ℕ → Text → ℕ → Result Text → Provider × Text × Option Error
unfolding by_status
on_body show p code retry_after now (err e) = (p, [], some e)
on_body show p code retry_after now (ok b) = by_status show p code retry_after now b

on_reply : (ℤ → Text) → Endpoint → Provider → ℕ → Reply → Provider × Text × Option Error
unfolding on_body
on_reply show e p now (no_reply error) = (p, [], some error)
on_reply show e p now (reply code retry_after body broken) =
    on_body show p code retry_after now (read_upstream_body e body broken)

-- SendHTTPRequest: the provider, the body and the error that it returns.
unfoldable pub send_http_request :
    (ℤ → Text) → Endpoint → Upstream → Provider → Text → Text → ℕ → Provider × Text × Option Error
unfolding on_reply
send_http_request show e upstream p url body now = on_reply show e p now (upstream url body)

-- responseHasError, which stops at the first error
unfoldable pub response_has_error : List (Option Response) → Outcome Bool
response_has_error [] = done false
response_has_error (r ∷ rs) = do
  res ← deref r
  let rest = response_has_error rs
  if is_error res then done true else rest

abbrev is_tron : Kind → Bool
is_tron Kind.tron = true
is_tron _ = false

-- The URL that SendRPCBatchRequest posts to
unfoldable pub target_url : Kind → Text → Text
unfolding text has_suffix
target_url kind http =
    if is_tron kind && not (has_suffix http (text "/jsonrpc"))
    then http ++ text "/jsonrpc"
    else http

-- `se.Code == http.StatusNotImplemented`, and the error for it
unfoldable pub not_implemented : Error → Error
unfolding error_message
not_implemented (status code) =
    if code == 501
    then method_not_supported code_method_not_found (error_message (status code))
    else status code
not_implemented e = e

module _ (json : Json) where
  -- An error of the transport whose body may hold a JSON-RPC error
  in_band : Error → Result BatchResponse → Outcome (Result BatchResponse)
  unfolding response_has_error not_implemented
  in_band error (err e) = done (err (not_implemented error))
  in_band error (ok res) = do
    has ← response_has_error res.responses
    done (if has then ok res else err (not_implemented error))

  on_error : Text → Error → Outcome (Result BatchResponse)
  unfolding in_band
  on_error b (rate_limited message d) = done (err (rate_limited message d))
  on_error b error = decode_batch_response json b >>= in_band error

  on_decoded : Text → Result BatchResponse → Result BatchResponse
  unfolding text
  on_decoded b (err e) =
      err (failure (text "bad response: " ++ (error_message e ++ (text ", raw: " ++ b))))
  on_decoded b (ok res) = ok res

  on_sent : Provider × Text × Option Error → Outcome (Provider × Result BatchResponse)
  unfolding on_error on_decoded
  on_sent (p, b, some error) = do r ← on_error b error; done (p, r)
  on_sent (p, b, none) = do r ← decode_batch_response json b; done (p, on_decoded b r)

  on_serialized :
      (ℤ → Text)
      → Endpoint
      → Upstream
      → Provider
      → ℕ
      → Result Text
      → Outcome (Provider × Result BatchResponse)
  unfolding on_sent send_http_request target_url text
  on_serialized show e upstream p now (err error) =
      done (p, err (failure (text "failed to serialize request: " ++ error_message error)))
  on_serialized show e upstream p now (ok body) =
      on_sent (send_http_request show e upstream p (target_url e.kind p.http) body now)

  -- SendRPCBatchRequest
  unfoldable pub send_rpc_batch_request :
      (ℤ → Text)
      → Endpoint
      → Upstream
      → Provider
      → List Request
      → Bool
      → ℕ
      → Outcome (Provider × Result BatchResponse)
  unfolding on_serialized serialize_batch_request
  send_rpc_batch_request show e upstream p reqs is_batch now =
      on_serialized show e upstream p now (serialize_batch_request json reqs is_batch)
