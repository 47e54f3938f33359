-- ===== src/Server/Handler.antt =====
-- IncomingHttpRpcHandler of internal/http.go. Logs, the in-flight gauge and timings are left out.
pub mod Guards
pub mod Total
use haprovider.Prelude.{
  ℕ, ◌*◌, Bool, true, false, not, List, [], ◌∷◌, Option, none, some, ℤ, ltb, if◌then◌else◌, length,
  Text, text, contains, Dict,
}
use haprovider.Prelude.Outcome.{Outcome, done, panicked, ◌>>=◌, deref_all}
use haprovider.Rpc.Error.{
  Error, empty_batch, code_invalid_request, code_parse_error, code_internal_error,
}
use haprovider.Rpc.Message.{Request, Response}
use haprovider.Rpc.Json.{Json}
use haprovider.Rpc.Batch.{BatchRequest, Result, ok, err, max_batch_size, decode_batch_request}
use haprovider.Core.Endpoint.{Endpoint}
use haprovider.Chain.{Chain, new}
use haprovider.Chain.Methods.{coalesceable}
use haprovider.Chain.Reject.{reject_disallowed}
use haprovider.Metrics.Labels.{Labels}
use haprovider.Failover.Visit.{Job, Visit, Forward}
use haprovider.Failover.Loop.{Ended, forward_with_failover}
use haprovider.Server.{Incoming, Answer}
use haprovider.Server.Reply.{
  write_rpc_error, write_forward_error, write_batch_response, write_method_not_allowed,
}
use haprovider.Server.Coalesce.{Turn, Handled, detached, coalesce_request}

abbrev pub max_request_body_size : ℕ
max_request_body_size = 5 * 1024 * 1024

-- io.ReadAll of a body behind http.MaxBytesReader
pub data ReadBody : Type 0 where
  read : Text → ReadBody
  too_large : ReadBody
  failed : Error → ReadBody

abbrev whole_body : Text → Option Error → ReadBody
whole_body body none = read body
whole_body body (some e) = failed e

unfoldable pub read_body : Text → Option Error → ReadBody
read_body body broken =
    if ltb max_request_body_size (length body) then too_large else whole_body body broken

-- What the rest of the program holds for the request: what the loop meets at the providers, the
-- metric labels, the time after the loop, the singleflight group, and whether the client leaves
-- before a shared call ends.
pub record World : Type 0 where
  pub visits : List Visit
  pub labels : Labels
  pub finished : ℕ
  pub group : Text → Turn
  pub gone : Bool

-- The condition for coalesceRequest, with the request that it takes
unfoldable pub coalesced : Option Chain → BatchRequest → Option Request
coalesced chain q = elim q.is_batch [
  | true ↦ none
  | false ↦ elim q.requests [
    | some r ∷ [] ↦ elim chain [
      | some c ↦ if coalesceable c r.method then some r else none
      | none ↦ none
    ]
    | _ ↦ none
  ]
]

module _ (json : Json) (show : ℤ → Text) (e : Endpoint) (headers : Dict Text) (w : World) where
  abbrev refuse : ℕ → ℤ → Text → Outcome Handled
  refuse status code message =
      done (record { answer = write_rpc_error json headers status code message; forwarded = none })

  abbrev job_of : List Request → Bool → Job
  job_of reqs is_batch = record { endpoint = e; requests = reqs; is_batch = is_batch; show = show }

  abbrev run : Job → List Visit → Outcome Ended
  run job visits = forward_with_failover json job visits w.labels w.finished

  write_result : Result Forward → Answer
  unfolding write_forward_error write_batch_response
  write_result (err error) = write_forward_error json headers error
  write_result (ok f) = write_batch_response json headers e f.provider f.responses f.is_batch

  on_ended : Ended → Handled
  unfolding write_result
  on_ended ended = record { answer = write_result ended.result; forwarded = some ended }

  -- From the test for coalescing on; a nil request panics in the loop.
  forward : BatchRequest → Option Request → Outcome Handled
  unfolding on_ended coalesce_request forward_with_failover detached deref_all
  forward q (some r) =
      coalesce_request json headers e r (run (job_of (r ∷ []) false) (detached w.visits)) w.gone
        w.group
  forward q none = do
    reqs ← deref_all q.requests
    ended ← run (job_of reqs q.is_batch) w.visits
    done (on_ended ended)

  unless_rejected : BatchRequest → Option (List Response) → Outcome Handled
  unfolding forward write_method_not_allowed coalesced new
  unless_rejected q (some rejected) = done (record {
    answer = write_method_not_allowed json headers rejected q.is_batch;
    forwarded = none;
  })
  unless_rejected q none = forward q (coalesced (new e.kind) q)

  on_request : BatchRequest → Outcome Handled
  unfolding unless_rejected reject_disallowed text write_rpc_error
  on_request q =
      if ltb max_batch_size (length q.requests)
      then refuse 413 code_invalid_request (text "batch too large")
      else (reject_disallowed json (new e.kind) q.requests >>= λ rejected.
          unless_rejected q rejected)

  on_decoded : Result BatchRequest → Outcome Handled
  unfolding on_request text write_rpc_error
  on_decoded (err empty_batch) = refuse 400 code_invalid_request (text "empty batch")
  on_decoded (err error) = refuse 400 code_parse_error (text "bad request")
  on_decoded (ok q) = on_request q

  on_body : ReadBody → Outcome Handled
  unfolding on_decoded decode_batch_request text write_rpc_error
  on_body too_large = refuse 413 code_invalid_request (text "request too large")
  on_body (failed error) = refuse 500 code_internal_error (text "error reading body")
  on_body (read body) = decode_batch_request json body >>= λ decoded. on_decoded decoded

  -- IncomingHttpRpcHandler
  unfoldable pub incoming_rpc : Incoming → Outcome Handled
  unfolding on_body read_body contains text write_rpc_error
  incoming_rpc i =
      if not (contains (i.header (text "Content-Type")) (text "application/json"))
      then refuse 400 code_invalid_request (text "invalid content type")
      else on_body (read_body i.body i.broken)
