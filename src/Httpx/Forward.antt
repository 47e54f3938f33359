-- ===== src/Httpx/Forward.antt =====
-- ForwardHTTPRequest of internal/httpx/httpx.go: one native HTTP request to a provider. What net/http
-- does for it is an argument; an error of NewRequestWithContext, which sends nothing, is one of its
-- errors. `canonical` is textproto.CanonicalMIMEHeaderKey. The timeout is left out.

use haprovider.Prelude.{
  ℕ, ◌||◌, List, [], ◌∷◌, Option, some, ℤ, ◌==◌, if◌then◌else◌, is_empty, Text, text, Dict, insert,
}
use haprovider.Rpc.Error.{Error}
use haprovider.Rpc.Batch.{Result, ok, err}
use haprovider.Core.Provider.{Provider, handle_too_many_requests}
use haprovider.Core.Endpoint.{Endpoint}
use haprovider.Httpx.{read_upstream_body}
use haprovider.Httpx.ClientIp.{set_forwarded_for}

pub record Outgoing : Type 0 where
  pub method : Text
  pub url : Text
  pub headers : Dict Text
  pub body : Text

-- What client.Do returns, with the headers Retry-After and Content-Type of a response
pub data Fetched : Type 0 where
  not_fetched : Error → Fetched
  fetched : (code : ℕ) (retry_after content_type body : Text) (broken : Option Error) → Fetched

-- httpx.Response
pub record HttpResponse : Type 0 where
  pub status_code : ℕ
  pub content_type : Text
  pub body : Text

module _ (canonical : Text → Text) where
  -- The loop that sets the provider's own headers
  unfoldable pub set_all : List (Text × Text) → Dict Text → Dict Text
  unfolding insert
  set_all [] headers = headers
  set_all ((k, v) ∷ own) headers = set_all own (insert (canonical k) v headers)

  -- The headers of the request, for those of the provider, the version, the client's content type and
  -- what the context carries.
  unfoldable pub forward_headers : List (Text × Text) → Text → Text → Text → Dict Text
  unfolding set_all insert text set_forwarded_for
  forward_headers own user_agent content_type carried = set_forwarded_for carried (
      insert (text "Content-Type")
        (if is_empty content_type then text "application/json; charset=utf-8" else content_type)
        (insert (text "User-Agent") user_agent (set_all own [])))

by_code : (ℤ → Text) → Provider → ℕ → Text → Text → ℕ → Text → Provider × Result HttpResponse
unfolding handle_too_many_requests
by_code show p code retry_after content_type now b =
    if code == 429 || code == 402
    then (let (q, e) = handle_too_many_requests show p (some retry_after) now in (q, err e))
    else (p, ok (record { status_code = code; content_type = content_type; body = b }))

on_read : (ℤ → Text) → Provider → ℕ → Text → Text → ℕ → Result Text → Provider × Result HttpResponse
unfolding by_code
on_read show p code retry_after content_type now (err e) = (p, err e)
on_read show p code retry_after content_type now (ok b) =
    by_code show p code retry_after content_type now b

-- ForwardHTTPRequest, from the answer of client.Do on
unfoldable pub on_fetched :
    (ℤ → Text) → Endpoint → Provider → ℕ → Fetched → Provider × Result HttpResponse
unfolding on_read read_upstream_body
on_fetched show e p now (not_fetched error) = (p, err error)
on_fetched show e p now (fetched code retry_after content_type body broken) =
    on_read show p code retry_after content_type now (read_upstream_body e body broken)

-- ForwardHTTPRequest
unfoldable pub forward_http_request :
    (ℤ → Text)
    → Endpoint
    → (Outgoing → Fetched)
    → Provider
    → Outgoing
    → ℕ
    → Provider × Result HttpResponse
unfolding on_fetched
forward_http_request show e fetch p request now = on_fetched show e p now (fetch request)
