-- ===== src/Server/Handler/Guards.antt =====
-- When IncomingHttpRpcHandler (internal/http.go) contacts providers at all.
use haprovider.Prelude.{
  ◌≡◌, ◌≤◌, refl, inl, inr, true, List, Option, none, some, ℤ, ltb, map, if◌then◌else◌, Bool-cases,
  all, length, Text, text, contains, Dict, arith,
}
use haprovider.Prelude.Outcome.{Outcome, done, panicked, ◌>>=◌, deref_all}
use haprovider.Rpc.Error.{Error}
use haprovider.Rpc.Message.{Request}
use haprovider.Rpc.Json.{Json}
use haprovider.Rpc.Batch.{BatchRequest, Result, ok, err, max_batch_size, decode_batch_request}
use haprovider.Core.Endpoint.{Endpoint}
use haprovider.Chain.{Chain, new}
use haprovider.Chain.Reject.{rejection}
use haprovider.Chain.Reject.Whole.{allowed, reject_disallowed-whole}
use haprovider.Failover.Loop.{Ended}
use haprovider.Server.{Incoming}
use haprovider.Server.Coalesce.{Handled}
use haprovider.Server.Handler.{
  max_request_body_size, ReadBody, read, too_large, failed, read_body, World, on_request,
  on_decoded, on_body, unless_rejected, incoming_rpc,
}

-- The members of a request that is let through, none of which is nil
pub record Passes (c : Chain) (q : BatchRequest) : Type 0 where
  pub members : List Request
  pub not_nil : deref_all q.requests ≡ done members
  pub few : length q.requests ≤ max_batch_size
  pub every : all (allowed c) members ≡ true

-- What a request must be for a provider to be contacted.
pub record IsAdmitted (json : Json) (c : Chain) (i : Incoming) : Type 0 where
  pub content_type : contains (i.header (text "Content-Type")) (text "application/json") ≡ true
  pub small : length i.body ≤ max_request_body_size
  pub unbroken : i.broken ≡ none
  pub batch : BatchRequest
  pub decodes : decode_batch_request json i.body ≡ done (ok batch)
  pub passes : Passes c batch

pub read_body-read :
    (b body : Text) (broken : Option Error)
    → read body ≡ read_body b broken
    → (length b ≤ max_request_body_size) × (broken ≡ none) × (body ≡ b)
unfolding read_body
read_body-read b body none eq = ground arith
read_body-read b body (some x) eq = absurd (ground arith)

module _ (json : Json) (show : ℤ → Text) (e : Endpoint) (headers : Dict Text) (w : World)
    (c : Chain) (known : new e.kind ≡ some c) where
  abbrev Forwards : Outcome Handled → Type 0
  Forwards o = (h : Handled) × (ended : Ended) × (o ≡ done h) × (h.forwarded ≡ some ended)

  of_members :
      (q : BatchRequest) (o : Outcome (List Request))
      → deref_all q.requests ≡ o
      → length q.requests ≤ max_batch_size
      → Forwards (
          (o >>= λ reqs.
          done (if all (allowed c) reqs then none else some (map (rejection json c) reqs)))
          >>= λ rejected. unless_rejected json show e headers w q rejected)
      → Passes c q
  unfolding unless_rejected
  of_members q panicked eq few (h, ended, runs, forwarded) = cc
  of_members q (done reqs) eq few (h, ended, runs, forwarded) =
      elim (Bool-cases (all (allowed c) reqs)) [
        | inl every ↦ record { members = reqs; not_nil = eq; few = few; every = every }
        | inr some_not ↦ absurd (ground arith)
      ]

  on_request-Passes :
      (q : BatchRequest) → Forwards (on_request json show e headers w q) → Passes c q
  unfolding on_request
  on_request-Passes q (h, ended, runs, forwarded) =
      elim (Bool-cases (ltb max_batch_size (length q.requests))) [
        | inl many ↦ absurd (ground arith)
        | inr few ↦
            let through = rw (few, known, reject_disallowed-whole json c q.requests) at runs in
            of_members q (deref_all q.requests) refl (ground arith) (h, ended, through, forwarded)
      ]

  on_decoded-Passes :
      (d : Result BatchRequest)
      → Forwards (on_decoded json show e headers w d)
      → (q : BatchRequest) × (d ≡ ok q) × Passes c q
  unfolding on_decoded
  on_decoded-Passes (ok q) forwards = (q, refl, on_request-Passes q forwards)
  on_decoded-Passes (err x) (h, ended, runs, forwarded) = absurd (ground arith)

  on_body-IsAdmitted :
      (i : Incoming) (b : ReadBody)
      → b ≡ read_body i.body i.broken
      → contains (i.header (text "Content-Type")) (text "application/json") ≡ true
      → Forwards (on_body json show e headers w b)
      → IsAdmitted json c i
  unfolding on_body read_body
  on_body-IsAdmitted i too_large eq json_type (h, ended, runs, forwarded) = absurd (cc)
  on_body-IsAdmitted i (failed x) eq json_type (h, ended, runs, forwarded) = absurd (cc)
  on_body-IsAdmitted i (read body) eq json_type (h, ended, runs, forwarded) =
      let (small, unbroken, same) = read_body-read i.body body i.broken eq in
      of_decoded (decode_batch_request json body) (rw same refl) small unbroken
        (h, ended, runs, forwarded)
    where
      of_decoded :
          (o : Outcome (Result BatchRequest))
          → decode_batch_request json i.body ≡ o
          → length i.body ≤ max_request_body_size
          → i.broken ≡ none
          → Forwards (o >>= λ decoded. on_decoded json show e headers w decoded)
          → IsAdmitted json c i
      of_decoded panicked decoded small unbroken (h', ended', runs', forwarded') = cc
      of_decoded (done d) decoded small unbroken forwards =
          let (q, good, passes) = on_decoded-Passes d forwards in
          record {
            content_type = json_type;
            small = small;
            unbroken = unbroken;
            batch = q;
            decodes = rw decoded (rw good refl);
            passes = passes;
          }

  -- For an endpoint of a known kind, the handler runs the failover loop to its end only for a request
  -- of content type JSON whose body arrives whole within 5 MiB and decodes to at most 100 requests,
  -- none of them null, the methods of which the chain all allows.
  pub incoming_rpc-IsAdmitted :
      (i : Incoming) (h : Handled) (ended : Ended)
      → incoming_rpc json show e headers w i ≡ done h
      → h.forwarded ≡ some ended
      → IsAdmitted json c i
  unfolding incoming_rpc
  incoming_rpc-IsAdmitted i h ended runs forwarded =
      elim (Bool-cases (contains (i.header (text "Content-Type")) (text "application/json"))) [
        | inl json_type ↦
            on_body-IsAdmitted i (read_body i.body i.broken) refl json_type
              (h, ended, rw json_type at runs, forwarded)
        | inr other ↦ absurd (ground arith)
      ]
