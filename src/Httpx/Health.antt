-- ===== src/Httpx/Health.antt =====
-- A request to a provider leaves its health to the caller (internal/httpx/httpx.go).
use haprovider.Prelude.{ℕ, ◌≡◌, Bool, List, Option, none, some, ℤ, Text, arith}
use haprovider.Prelude.Outcome.{IfDone, IfDone-map}
use haprovider.Rpc.Error.{Error}
use haprovider.Rpc.Message.{Request}
use haprovider.Rpc.Json.{Json}
use haprovider.Rpc.Batch.{Result, ok, err, serialize_batch_request, decode_batch_response}
use haprovider.Core.Provider.{Provider, handle_too_many_requests}
use haprovider.Core.Endpoint.{Endpoint}
use haprovider.Httpx.{
  Reply, no_reply, reply, Upstream, by_status, on_body, on_reply, on_error, on_decoded, on_sent,
  on_serialized, send_rpc_batch_request, read_upstream_body,
}

-- Two states of a provider with the same name and the same health
pub record SameHealth (p q : Provider) : Type 0 where
  pub name : q.name ≡ p.name
  pub online : q.online ≡ p.online
  pub attempt : q.attempt ≡ p.attempt
  pub changed : q.last_state_change ≡ p.last_state_change

too_many-SameHealth :
    (show : ℤ → Text) (p : Provider) (header : Option Text) (now : ℕ)
    → SameHealth p (handle_too_many_requests show p header now).0
unfolding handle_too_many_requests
too_many-SameHealth show p header now = ground arith

on_reply-SameHealth :
    (show : ℤ → Text) (e : Endpoint) (p : Provider) (now : ℕ) (r : Reply)
    → SameHealth p (on_reply show e p now r).0
unfolding on_reply by_status
on_reply-SameHealth show e p now (no_reply error) = ground arith
on_reply-SameHealth show e p now (reply code retry_after body broken) =
    of_body (read_upstream_body e body broken)
  where
    of_body : (b : Result Text) → SameHealth p (on_body show p code retry_after now b).0
    of_body (err error) = ground arith
    of_body (ok b) = ground (arith, too_many-SameHealth show p (some retry_after) now)

module _ (json : Json) where
  on_sent-SameHealth :
      (p : Provider) (s : Provider × Text × Option Error)
      → SameHealth p s.0
      → IfDone (λ r. SameHealth p r.0) (on_sent json s)
  unfolding on_sent
  on_sent-SameHealth p (q, b, some error) h =
      IfDone-map (λ r. SameHealth p r.0) (on_error json b error) (λ r. (q, r)) (λ _. h)
  on_sent-SameHealth p (q, b, none) h =
      IfDone-map (λ r. SameHealth p r.0) (decode_batch_response json b)
        (λ r. (q, on_decoded json b r)) (λ _. h)

  -- Sending a batch to a provider, with any outcome, changes neither its name nor whether it is
  -- online, how many attempts have failed, or when that last changed.
  pub send_rpc_batch_request-SameHealth :
      (show : ℤ → Text) (e : Endpoint) (upstream : Upstream) (p : Provider) (reqs : List Request)
      (is_batch : Bool) (now : ℕ)
      → IfDone
          (λ r. SameHealth p r.0)
          (send_rpc_batch_request json show e upstream p reqs is_batch now)
  unfolding send_rpc_batch_request
  send_rpc_batch_request-SameHealth show e upstream p reqs is_batch now =
      of_body (serialize_batch_request json reqs is_batch)
    where
      of_body :
          (body : Result Text)
          → IfDone (λ r. SameHealth p r.0) (on_serialized json show e upstream p now body)
      of_body (err error) = ground arith
      of_body (ok body) = on_sent-SameHealth p _ (on_reply-SameHealth show e p now _)
