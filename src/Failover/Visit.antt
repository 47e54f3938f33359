-- ===== src/Failover/Visit.antt =====
-- The body of the loop of forwardWithFailover (internal/http.go) for one provider.
pub mod Fits
pub mod Health
pub mod Lost
pub mod Total
use haprovider.Prelude.{
  ℕ, Bool, true, false, ◌||◌, List, [], ◌∷◌, ◌++◌, Option, none, some, ℤ, pos, ◌==◌, if◌then◌else◌,
  length, Text, text, decimal,
}
use haprovider.Prelude.Outcome.{Outcome, done, panicked, ◌>>=◌, deref, deref_all}
use haprovider.Rpc.Error.{Error, method_not_supported, try_next_provider, status, failure}
use haprovider.Rpc.Message.{Request, Response, is_error, get_error}
use haprovider.Rpc.Json.{Json}
use haprovider.Rpc.Batch.{BatchResponse, Result, ok, err}
use haprovider.Core.Provider.{Provider, mark_unhealthy, mark_method_unsupported, supports_method}
use haprovider.Core.Endpoint.{Endpoint}
use haprovider.Chain.{Chain, new}
use haprovider.Chain.Errors.{handle_error}
use haprovider.Metrics.Labels.{Labels, admit_method}
use haprovider.Httpx.{Upstream, send_rpc_batch_request}
use haprovider.Failover.Attribution.{response_methods}

-- The request, the endpoint that it came to, and how durations are printed
pub record Job : Type 0 where
  pub endpoint : Endpoint
  pub requests : List Request
  pub is_batch : Bool
  pub show : ℤ → Text

-- What the loop meets at a provider: its state at that moment, the time, how it answers, what other
-- goroutines do to its state during the call, and the error of the context after it, if it is done.
pub record Visit : Type 0 where
  pub provider : Provider
  pub arrived : ℕ
  pub upstream : Upstream
  pub during : Provider → Provider
  pub returned : ℕ
  pub cancelled : Option Error

-- forwardResult: the response, and the provider by its name
pub record Forward : Type 0 where
  pub responses : List Response
  pub is_batch : Bool
  pub provider : Text

-- The variables of the loop, and the metric labels that it admits
pub record Vars : Type 0 where
  pub method_unsupported : Bool
  pub request_too_large : Bool
  pub last_try_next : Option Forward
  pub labels : Labels

-- After a visit: the provider, the variables, and what forwardWithFailover returns, if it does.
pub record After : Type 0 where
  pub provider : Provider
  pub vars : Vars
  pub returns : Option (Result Forward)

-- supportsAllMethods, which stops at the first method that is not supported
unfoldable pub supports_all : Provider → List Request → ℕ → Provider × Bool
supports_all p [] now = (p, true)
supports_all p (r ∷ rs) now =
    let (q, fine) = supports_method p r.method now in
    let rest = supports_all q rs now in if fine then rest else (q, false)

abbrev is_method_not_supported : Error → Bool
is_method_not_supported (method_not_supported c m) = true
is_method_not_supported _ = false

abbrev is_request_too_large : Error → Bool
is_request_too_large (status code) = code == 413
is_request_too_large _ = false

-- `if provider.IsOnline() { provider.MarkUnhealthy(err) }`
unfoldable pub lose_if_online : Provider → Error → ℕ → Provider
lose_if_online p e now = if p.online then mark_unhealthy p e now else p

abbrev pub go_on : Provider → Vars → After
go_on p vars = record { provider = p; vars = vars; returns = none }

-- The branch for an error of SendRPCBatchRequest
pub on_failure : List Request → Provider → Vars → Error → ℕ → After
unfolding lose_if_online
on_failure (r ∷ []) p vars e now =
    if is_method_not_supported e
    then go_on (mark_method_unsupported p r.method now) (record vars { method_unsupported = true })
    else if is_request_too_large e
    then go_on p (record vars { request_too_large = true })
    else go_on (lose_if_online p e now) vars
on_failure reqs p vars e now =
    if is_request_too_large e
    then go_on p (record vars { request_too_large = true })
    else go_on (lose_if_online p e now) vars

-- The labels of the methods that were answered without an error
admit_answered : List Text → List Response → Labels → Labels
admit_answered (m ∷ ms) (r ∷ rs) labels =
    admit_answered ms rs (if is_error r then labels else admit_method labels m)
admit_answered _ _ labels = labels

-- What the errors.As tests tell apart in what HandleError returns
pub data Meaning : Type 0 where
  for_client unsupported elsewhere : Meaning
  fault : Error → Meaning

meaning : Option Error → Meaning
meaning none = for_client
meaning (some (method_not_supported c m)) = unsupported
meaning (some (try_next_provider m)) = elsewhere
meaning (some e) = fault e

-- How the scan of the error responses ends: it saw them all, or left at one.
pub data Scan : Type 0 where
  all_seen try_next lost : Scan

-- One response of the scan, with its method and the scan of those behind it
scan_one :
    Outcome Meaning
    → Text
    → ℕ
    → (Bool → Provider → Outcome (Provider × Bool × Scan))
    → Bool
    → Provider
    → Outcome (Provider × Bool × Scan)
scan_one panicked m now rest found p = panicked
scan_one (done for_client) m now rest found p = rest found p
scan_one (done unsupported) m now rest found p = rest true (mark_method_unsupported p m now)
scan_one (done elsewhere) m now rest found p = done (p, found, try_next)
scan_one (done (fault e)) m now rest found p = done (mark_unhealthy p e now, found, lost)

-- After the scan: the variables take up what it found, and a response with no such error is
-- returned.
pub conclude : Forward → Vars → Provider × Bool × Scan → After
conclude f vars (p, found, all_seen) =
    if found
    then go_on p (record vars { method_unsupported = true })
    else record { provider = p; vars = vars; returns = some (ok f) }
conclude f vars (p, found, try_next) =
    go_on p (record vars {
      method_unsupported = found || vars.method_unsupported;
      last_try_next = some f;
    })
conclude f vars (p, found, lost) =
    go_on p (record vars { method_unsupported = found || vars.method_unsupported })

module _ (json : Json) where
  by_chain : Response → Chain → Outcome Meaning
  unfolding meaning
  by_chain r c =
      let (code, message) = get_error json.error_of r in
      done (meaning (handle_error c code message))

  -- What HandleError says of a response; the nil interface of an unknown kind panics.
  unfoldable pub classify : Option Chain → Response → Outcome Meaning
  unfolding by_chain
  classify chain r = if is_error r then deref chain >>= by_chain r else done for_client

  -- The scan of the responses with their methods; `found` is methodNotSupported.
  scan :
      Option Chain
      → ℕ
      → List Text
      → List Response
      → Bool
      → Provider
      → Outcome (Provider × Bool × Scan)
  unfolding classify scan_one
  scan chain now (m ∷ ms) (r ∷ rs) found p =
      scan_one (classify chain r) m now (scan chain now ms rs) found p
  scan chain now _ _ found p = done (p, found, all_seen)

  -- The branch for a response of the right size, none of whose pointers is nil
  on_responses : Job → Provider → Vars → List Response → ℕ → Outcome After
  unfolding scan conclude admit_answered response_methods
  on_responses job p vars ress now =
      let methods = response_methods json job.requests job.is_batch ress in
      let forward : Forward = record {
        responses = ress;
        is_batch = job.is_batch;
        provider = p.name;
      } in
      let labelled = record vars { labels = admit_answered methods ress vars.labels } in
      scan (new job.endpoint.kind) now methods ress false p >>= λ s.
      done (conclude forward labelled s)

  size_mismatch : ℕ → ℕ → Error
  unfolding text decimal
  size_mismatch sent got = failure (
      text "response size mismatch: sent "
      ++ (decimal (pos sent)
          ++ (text " requests, got " ++ (decimal (pos got) ++ text " responses"))))

  on_batch : Job → Provider → Vars → BatchResponse → ℕ → Outcome After
  unfolding on_responses size_mismatch deref_all
  on_batch job p vars res now =
      if length res.responses == length job.requests
      then (deref_all res.responses >>= λ ress. on_responses job p vars ress now)
      else done (
          go_on (mark_unhealthy p (size_mismatch (length job.requests) (length res.responses)) now)
            vars)

  -- What follows the call: the context first, then the error or the response.
  on_call : Job → Vars → ℕ → Option Error → Provider × Result BatchResponse → Outcome After
  unfolding on_failure on_batch
  on_call job vars now (some error) (p, r) =
      done (record { provider = p; vars = vars; returns = some (err error) })
  on_call job vars now none (p, err error) = done (on_failure job.requests p vars error now)
  on_call job vars now none (p, ok res) = on_batch job p vars res now

  -- An online provider that supports the methods is called.
  call : Job → Visit → Vars → Provider → Outcome After
  unfolding on_call send_rpc_batch_request
  call job v vars p =
      send_rpc_batch_request json job.show job.endpoint v.upstream (v.during p) job.requests
        job.is_batch v.returned
      >>= on_call job vars v.returned v.cancelled

  when_supported : Job → Visit → Vars → Provider × Bool → Outcome After
  unfolding call
  when_supported job v vars (p, true) = call job v vars p
  when_supported job v vars (p, false) = done (go_on p (record vars { method_unsupported = true }))

  when_online : Job → Visit → Vars → Bool → Outcome After
  unfolding when_supported supports_all
  when_online job v vars true =
      when_supported job v vars (supports_all v.provider job.requests v.arrived)
  when_online job v vars false = done (go_on v.provider vars)

  -- The body of the loop
  unfoldable pub visit : Job → Visit → Vars → Outcome After
  unfolding when_online
  visit job v vars = when_online job v vars v.provider.online
