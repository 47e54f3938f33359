-- ===== src/Server/HttpApi/Loop.antt =====
-- IncomingHTTPAPIHandler of internal/http.go: a native TRON request goes from provider to provider.
-- What the loop meets at each of them is an `ApiVisit`; logs and Prometheus counters are left out.
pub mod Choice
use haprovider.Prelude.{
  ℕ, Bool, true, false, not, ◌&&◌, List, [], ◌∷◌, ◌++◌, map, Option, none, some, ℤ, leb, ltb,
  if◌then◌else◌, is_empty, Text, text, text_eq, Dict, insert,
}
use haprovider.Rpc.Error.{Error, status}
use haprovider.Rpc.Batch.{Result, ok, err}
use haprovider.Core.Provider.{Provider}
use haprovider.Core.Endpoint.{Endpoint}
use haprovider.Metrics.Labels.{Labels, admit_method}
use haprovider.Httpx.ClientIp.{forwarded_for}
use haprovider.Httpx.Forward.{
  Outgoing, Fetched, HttpResponse, forward_headers, forward_http_request,
}
use haprovider.Failover.Visit.{lose_if_online}
use haprovider.Server.{Incoming, Answer, silent, answer, http_error}
use haprovider.Server.Reply.{name_provider}
use haprovider.Server.Handler.{ReadBody, read, too_large, failed, read_body}
use haprovider.Server.HttpApi.{allowed_http_api_path, target}

-- Functions of other packages and settings: url.PathEscape, textproto.CanonicalMIMEHeaderKey,
-- net.SplitHostPort, how durations are printed, the version header and RealIPHeader
pub record Setup : Type 0 where
  pub escape : Text → Text
  pub canonical : Text → Text
  pub split_host_port : Text → Option Text
  pub show : ℤ → Text
  pub user_agent : Text
  pub real_ip_header : Text

-- A provider as the loop meets it, with its own headers, how it answers, what other goroutines do to
-- its state during the call, when it returns, and whether the client has left by then.
pub record ApiVisit : Type 0 where
  pub provider : Provider
  pub own_headers : List (Text × Text)
  pub fetch : Outgoing → Fetched
  pub during : Provider → Provider
  pub returned : ℕ
  pub left : Bool

-- A response, with the name of the provider that sent it
pub record Named : Type 0 where
  pub provider : Text
  pub response : HttpResponse

-- The providers that the loop has passed, lastServerError, the labels, and the answer, if the handler
-- returns from inside the loop.
pub record Passed : Type 0 where
  pub providers : List Provider
  pub last_server_error : Option Named
  pub labels : Labels
  pub returns : Option Answer

-- writeHTTPAPIResponse
unfoldable pub write_http_api_response : Dict Text → Endpoint → Named → Answer
unfolding name_provider insert text
write_http_api_response headers e n =
    let named = name_provider e n.provider headers in
    answer n.response.status_code
      (if not (is_empty n.response.content_type)
        then insert (text "Content-Type") n.response.content_type named
        else named)
      n.response.body

untouched : List ApiVisit → List Provider
untouched [] = []
untouched (v ∷ vs) = v.provider ∷ untouched vs

-- AdmitMethod for a status of the 200s
admit_path : ℕ → Text → Labels → Labels
unfolding admit_method
admit_path code path labels =
    if leb 200 code && ltb code 300 then admit_method labels path else labels

behind : Provider → Passed → Passed
behind p l = record l { providers = p ∷ l.providers }

module _ (s : Setup) (e : Endpoint) (headers : Dict Text) (i : Incoming) where
  -- The value that WithForwardedFor puts on the context
  carried : Text
  unfolding forwarded_for
  carried =
      if e.add_x_forwarded_headers
      then forwarded_for s.split_host_port s.real_ip_header i.header i.remote_addr
      else []

  request_to : ApiVisit → Text → Outgoing
  unfolding target forward_headers carried text
  request_to v body = record {
    method = i.method;
    url = target s.escape v.provider.http i.path i.raw_query;
    headers =
        forward_headers s.canonical v.own_headers s.user_agent (i.header (text "Content-Type"))
          carried;
    body = body;
  }

  -- The provider and what ForwardHTTPRequest returns
  unfoldable pub ask : Text → ApiVisit → Provider × Result HttpResponse
  unfolding request_to forward_http_request
  ask body v =
      forward_http_request s.show e v.fetch (v.during v.provider) (request_to v body) v.returned

  stop : List ApiVisit → Provider → Option Named → Labels → Answer → Passed
  unfolding untouched
  stop vs p kept labels a = record {
    providers = p ∷ untouched vs;
    last_server_error = kept;
    labels = labels;
    returns = some a;
  }

  -- What follows a response: a status of 500 or more is kept, and any other ends the loop.
  on_response :
      ApiVisit
      → List ApiVisit
      → (Option Named → Passed)
      → Option Named
      → Labels
      → Provider
      → HttpResponse
      → Passed
  unfolding stop behind lose_if_online admit_path write_http_api_response
  on_response v vs rest kept labels p res =
      let named : Named = record { provider = p.name; response = res } in
      let after =
        behind (lose_if_online p (status res.status_code) v.returned) (rest (some named)) in
      if leb 500 res.status_code
      then after
      else stop vs p kept (admit_path res.status_code i.path labels)
          (write_http_api_response headers e named)

  -- What follows the call
  on_forwarded :
      ApiVisit
      → List ApiVisit
      → (Option Named → Passed)
      → Option Named
      → Labels
      → Bool
      → Provider × Result HttpResponse
      → Passed
  unfolding stop on_response behind lose_if_online
  on_forwarded v vs rest kept labels true (p, r) = stop vs p kept labels silent
  on_forwarded v vs rest kept labels false (p, err error) =
      behind (lose_if_online p error v.returned) (rest kept)
  on_forwarded v vs rest kept labels false (p, ok res) = on_response v vs rest kept labels p res

  -- The loop over the providers
  api_loop : Text → List ApiVisit → Option Named → Labels → Passed
  unfolding on_forwarded ask behind
  api_loop body [] kept labels = record {
    providers = [];
    last_server_error = kept;
    labels = labels;
    returns = none;
  }
  api_loop body (v ∷ vs) kept labels =
      let skip = behind v.provider (api_loop body vs kept labels) in
      let tried =
        on_forwarded v vs (λ k. api_loop body vs k labels) kept labels v.left (ask body v) in
      if v.provider.online then tried else skip

  -- What is written when the loop has ended by itself
  exhausted : Option Named → Answer
  unfolding write_http_api_response text
  exhausted (some n) = write_http_api_response headers e n
  exhausted none = http_error 503 headers (text "no providers available")

  concluded : Passed → Answer
  unfolding exhausted
  concluded l = elim l.returns [ some a ↦ a | none ↦ exhausted l.last_server_error ]

  -- What the handler writes, and the loop that it ran, if it ran one
  pub record Proxied : Type 0 where
    pub answer : Answer
    pub passed : Option Passed

  abbrev refuse : ℕ → Dict Text → Text → Proxied
  refuse code with_headers message = record {
    answer = http_error code with_headers message;
    passed = none;
  }

  on_api_body : List ApiVisit → Labels → ReadBody → Proxied
  unfolding api_loop concluded text
  on_api_body vs labels too_large = refuse 413 headers (text "request too large")
  on_api_body vs labels (failed error) = refuse 500 headers (text "error reading body")
  on_api_body vs labels (read body) =
      let l = api_loop body vs none labels in record { answer = concluded l; passed = some l }

  -- IncomingHTTPAPIHandler
  unfoldable pub incoming_http_api : List ApiVisit → Labels → Proxied
  unfolding on_api_body read_body allowed_http_api_path text text_eq insert
  incoming_http_api vs labels =
      if not (text_eq i.method (text "GET")) && not (text_eq i.method (text "POST"))
      then refuse 405 (insert (text "Allow") (text "GET, POST") headers) (text "method not allowed")
      else if not (allowed_http_api_path i.path)
      then refuse 404 headers (text "not found")
      else on_api_body vs labels (read_body i.body i.broken)
