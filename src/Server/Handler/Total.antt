-- ===== src/Server/Handler/Total.antt =====
-- IncomingHttpRpcHandler (internal/http.go) does not panic, if no message has a null for a member.
use haprovider.Prelude.{
  ◌≡◌, refl, sym, inl, inr, Bool, true, List, Option, none, some, ℤ, ltb, Bool-cases, all, length,
  map, Text, text, contains, Dict, if◌then◌else◌, arith,
}
use haprovider.Prelude.Outcome.{
  Outcome, done, panicked, ◌>>=◌, Ends, Ends->>=, NoNil, deref_all, Ends-deref_all,
}
use haprovider.Rpc.Message.{Request, Response}
use haprovider.Rpc.Json.{Json}
use haprovider.Rpc.Batch.{BatchRequest, Result, ok, err, max_batch_size, decode_batch_request}
use haprovider.Rpc.Batch.Total.{IsFilled}
use haprovider.Rpc.Batch.Requests.{NoNullRequests, NoNilRequests, Ends-decode_batch_request}
use haprovider.Core.Endpoint.{Endpoint}
use haprovider.Chain.{Chain, new}
use haprovider.Chain.Methods.{coalesceable}
use haprovider.Chain.Reject.{rejection, reject_disallowed}
use haprovider.Chain.Reject.Whole.{allowed, reject_disallowed-whole}
use haprovider.Failover.Loop.Total.{AllClean, forward_with_failover-done}
use haprovider.Failover.Visit.{Forward}
use haprovider.Server.{Incoming}
use haprovider.Server.Coalesce.{Handled, joins}
use haprovider.Server.Coalesce.Own.{IsShared, Ends-coalesce_request}
use haprovider.Server.Handler.Guards.{read_body-read}
use haprovider.Server.Handler.{
  ReadBody, read, too_large, failed, read_body, World, coalesced, forward, unless_rejected,
  on_request, on_decoded, on_body, on_ended, job_of, run, incoming_rpc,
}

-- A request is taken for coalescing only if its chain says so.
coalesced-coalesceable :
    (c : Chain) (q : BatchRequest) (r : Request)
    → coalesced (some c) q ≡ some r
    → coalesceable c r.method ≡ true
unfolding coalesced
coalesced-coalesceable c q r h = ground arith

module _ (json : Json) (show : ℤ → Text) (e : Endpoint) (headers : Dict Text) (w : World)
    (filled : IsFilled json) {c : Chain} (known : new e.kind ≡ some c) where
  abbrev AnyTurn : Type 0
  AnyTurn =
      (key : Text) (value : Result Forward)
      → w.group key ≡ joins value
      → IsShared json show e headers c key value

  abbrev AnyJob : Type 0
  AnyJob =
      (reqs : List Request) (is_batch : Bool)
      → AllClean json filled (job_of json show e headers w reqs is_batch) known w.visits

  module _ (clean : AnyJob) (shared : AnyTurn) where
    Ends-run :
        (reqs : List Request) (is_batch : Bool)
        → Ends
            (λ x. Unit {0})
            (run json show e headers w (job_of json show e headers w reqs is_batch) w.visits
              >>= λ x. done (on_ended json show e headers w x))
    Ends-run reqs is_batch =
        let (x, ends) =
          forward_with_failover-done json filled (job_of json show e headers w reqs is_batch) known
            w.visits w.labels w.finished (clean reqs is_batch) in
        rw ends tt

    Ends-forward :
        (q : BatchRequest) (o : Option Request)
        → NoNil q.requests
        → ((r : Request) → o ≡ some r → coalesceable c r.method ≡ true)
        → Ends (λ x. Unit {0}) (forward json show e headers w q o)
    unfolding forward
    Ends-forward q (some r) h may =
        Ends-coalesce_request json show e headers c r w.visits w.labels w.finished w.gone w.group
          (may r refl) shared
    Ends-forward q none h may =
        Ends->>= (λ ys. length ys ≡ length q.requests) (λ x. Unit {0}) (deref_all q.requests)
          (λ reqs.
            run json show e headers w (job_of json show e headers w reqs q.is_batch) w.visits
            >>= λ x. done (on_ended json show e headers w x))
          (Ends-deref_all q.requests h) (λ reqs u. Ends-run reqs q.is_batch)

    Ends-unless_rejected :
        (q : BatchRequest) (o : Option (List Response))
        → NoNil q.requests
        → Ends (λ x. Unit {0}) (unless_rejected json show e headers w q o)
    unfolding unless_rejected
    Ends-unless_rejected q (some rejected) h = tt
    Ends-unless_rejected q none h =
        rw known (Ends-forward q (coalesced (some c) q) h (coalesced-coalesceable c q))

    Ends-rejecting :
        (q : BatchRequest)
        → NoNil q.requests
        → Ends (λ x. Unit {0}) (reject_disallowed json (some c) q.requests)
    Ends-rejecting q h = rw (reject_disallowed-whole json c q.requests) (
        Ends->>= (λ ys. length ys ≡ length q.requests) (λ x. Unit {0}) (deref_all q.requests)
          (λ reqs. done (if all (allowed c) reqs then none else some (map (rejection json c) reqs)))
          (Ends-deref_all q.requests h) (λ reqs u. tt))

    Ends-on_decoded :
        (d : Result BatchRequest)
        → NoNilRequests d
        → Ends (λ x. Unit {0}) (on_decoded json show e headers w d)
    unfolding on_decoded on_request
    Ends-on_decoded (err x) h = ground arith
    Ends-on_decoded (ok q) h = elim (Bool-cases (ltb max_batch_size (length q.requests))) [
      | inl many ↦ rw many tt
      | inr few ↦
          rw (few, known)
            (Ends->>= (λ x. Unit {0}) (λ x. Unit {0}) (reject_disallowed json (some c) q.requests)
              (λ rejected. unless_rejected json show e headers w q rejected) (Ends-rejecting q h)
              (λ rejected u. Ends-unless_rejected q rejected h))
    ]

    Ends-on_body :
        (b : ReadBody)
        → ((body : Text) → b ≡ read body → NoNullRequests json body)
        → Ends (λ x. Unit {0}) (on_body json show e headers w b)
    unfolding on_body
    Ends-on_body too_large h = tt
    Ends-on_body (failed x) h = tt
    Ends-on_body (read body) h =
        Ends->>= NoNilRequests (λ x. Unit {0}) (decode_batch_request json body)
          (λ decoded. on_decoded json show e headers w decoded)
          (Ends-decode_batch_request json filled body (h body refl)) Ends-on_decoded

    handled : (o : Outcome Handled) → Ends (λ x. Unit {0}) o → (h : Handled) × (o ≡ done h)
    handled (done h) u = (h, refl)
    handled panicked u = absurd u

    -- For an endpoint of a known kind, where the JSON decoder hands over values of at least one byte,
    -- neither the client nor a provider sends an array that has a null in it, and the group hands
    -- over only what the callback of a coalesced request with the same key returned, the handler does
    -- not panic: it returns.
    pub incoming_rpc-done :
        (i : Incoming)
        → NoNullRequests json i.body
        → (h : Handled) × (incoming_rpc json show e headers w i ≡ done h)
    unfolding incoming_rpc
    incoming_rpc-done i no_null =
        handled (incoming_rpc json show e headers w i)
          (elim (Bool-cases (contains (i.header (text "Content-Type")) (text "application/json"))) [
            | inl json_type ↦ rw json_type (
                Ends-on_body (read_body i.body i.broken)
                  (λ body h. rw (read_body-read i.body body i.broken (sym h)).2 no_null))
            | inr other ↦ rw other tt
          ])
