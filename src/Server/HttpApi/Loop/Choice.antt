-- ===== src/Server/HttpApi/Loop/Choice.antt =====
-- Which response a client of the HTTP API gets (IncomingHTTPAPIHandler of internal/http.go).
use haprovider.Prelude.{
  Bool, true, false, not, ◌&&◌, text, text_eq, List, [], ◌∷◌, Option, none, some, leb,
  if◌then◌else◌, Text, Dict,
}
use haprovider.Rpc.Error.{Error}
use haprovider.Rpc.Batch.{Result, ok, err}
use haprovider.Core.Provider.{Provider}
use haprovider.Core.Endpoint.{Endpoint}
use haprovider.Metrics.Labels.{Labels}
use haprovider.Httpx.Forward.{HttpResponse}
use haprovider.Server.{Incoming, Answer, silent, http_error}
use haprovider.Server.HttpApi.Loop.{Setup, ApiVisit, Named, write_http_api_response, ask}

-- What a provider comes to for a request: passed over, broken with a response of 500 or more, the one
-- that serves it, or the one that was asked when the client left.
pub data Try : Type 0 where
  passed_over : Try
  broke serves : Named → Try
  client_left : Try

of_response : Named → Try
of_response n = if leb 500 n.response.status_code then broke n else serves n

of_result : Text → Result HttpResponse → Try
unfolding of_response
of_result name (err error) = passed_over
of_result name (ok res) = of_response (record { provider = name; response = res })

of_call : Bool → Provider × Result HttpResponse → Try
unfolding of_result
of_call true (p, r) = client_left
of_call false (p, r) = of_result p.name r

-- The first that serves the request, or was asked when the client left
pub first_decisive : List Try → Option Try
first_decisive [] = none
first_decisive (passed_over ∷ ts) = first_decisive ts
first_decisive (broke n ∷ ts) = first_decisive ts
first_decisive (serves n ∷ ts) = some (serves n)
first_decisive (client_left ∷ ts) = some client_left

-- The last that broke, or what was broken before
pub last_broken : Option Named → List Try → Option Named
last_broken kept [] = kept
last_broken kept (broke n ∷ ts) = last_broken (some n) ts
last_broken kept (passed_over ∷ ts) = last_broken kept ts
last_broken kept (serves n ∷ ts) = last_broken kept ts
last_broken kept (client_left ∷ ts) = last_broken kept ts

asks_badly : Text → Bool
unfolding text text_eq
asks_badly method = not (text_eq method (text "GET")) && not (text_eq method (text "POST"))

module _ (s : Setup) (e : Endpoint) (headers : Dict Text) (i : Incoming) (body : Text) where
  pub tried : ApiVisit → Try
  unfolding of_call
  tried v = if v.provider.online then of_call v.left (ask s e headers i body v) else passed_over

  -- What the client gets if no provider serves the request: the last response that was broken, or else
  -- an error of our own.
  pub nothing_served : Option Named → Answer
  unfolding text
  nothing_served none = http_error 503 headers (text "no providers available")
  nothing_served (some n) = write_http_api_response headers e n

  -- What the client is to get: the response of the first provider that serves the request, if there is
  -- one.
  pub chosen : List Try → Option Named → Answer
  unfolding first_decisive last_broken
  chosen ts kept = elim (first_decisive ts) [
    | none ↦ nothing_served (last_broken kept ts)
    | some (serves n) ↦ write_http_api_response headers e n
    | some (broke n) ↦ silent
    | some passed_over ↦ silent
    | some client_left ↦ silent
  ]
