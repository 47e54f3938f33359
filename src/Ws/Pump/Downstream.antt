-- ===== src/Ws/Pump/Downstream.antt =====
-- What the proxy does with a message from the client (pumpClient of internal/ws/ws.go).
use haprovider.Prelude.{
  ℕ, zero, suc, ◌+◌, ◌≡◌, ◌≤◌, ◌<◌, refl, inl, inr, Bool, true, false, List, [], ◌∷◌, map, Option,
  none, some, All, all, Bool-cases, ltb, leb, take, if◌then◌else◌, length, Text, arith,
}
use haprovider.Prelude.Outcome.{Outcome, done, panicked, ◌>>=◌, deref_all}
use haprovider.Rpc.Error.{Error}
use haprovider.Rpc.Message.{Request}
use haprovider.Rpc.Json.{Json}
use haprovider.Rpc.Batch.{BatchRequest, ok, err, max_batch_size, decode_batch_request}
use haprovider.Chain.{Chain}
use haprovider.Chain.Reject.{rejection}
use haprovider.Chain.Reject.Whole.{allowed, reject_disallowed-whole}
use haprovider.Ws.Pump.{
  to_provider, to_client, Asked, bad_request, send_each, answer_rejected, unless_rejected, on_batch,
  client_message,
}

deref_all-map :
    (rs : List (Option Request)) (reqs : List Request)
    → deref_all rs ≡ done reqs
    → rs ≡ map some reqs
unfolding deref_all
deref_all-map [] reqs h = ground arith
deref_all-map (none ∷ rs) reqs h = cc
deref_all-map (some r ∷ rs) reqs h = of_rest (deref_all rs) refl h (deref_all-map rs)
  where
    of_rest :
        (o : Outcome (List Request))
        → deref_all rs ≡ o
        → (o >>= λ rest. done (r ∷ rest)) ≡ done reqs
        → ((rest : List Request) → deref_all rs ≡ done rest → rs ≡ map some rest)
        → some r ∷ rs ≡ map some reqs
    of_rest panicked e h' ih = cc
    of_rest (done rest) e h' ih =
        let cons : r ∷ rest ≡ reqs = cc in rw (← cons) (rw (ih rest e) refl)

-- The requests that sendRequest takes, and whether it takes them all
abbrev pub passed_on : ℕ → List Request → Asked
passed_on room reqs = record {
  bad_requests = 0;
  acts = map to_provider (take room reqs);
  goes_on = leb (length reqs) room;
}

send_each-passed_on :
    (room : ℕ) (reqs : List Request) → send_each room (map some reqs) ≡ done (passed_on room reqs)
unfolding send_each
send_each-passed_on zero [] = ground arith
send_each-passed_on (suc room) [] = ground arith
send_each-passed_on zero (r ∷ reqs) = ground arith
send_each-passed_on (suc room) (r ∷ reqs) = ground (arith, send_each-passed_on room reqs)

module _ (json : Json) (c : Chain) where
  -- A client is to get a response of our own for each request of a batch that is rejected.
  pub turned_down : List Request → Asked
  turned_down reqs = record {
    bad_requests = 0;
    acts = map to_client (map (rejection json c) reqs);
    goes_on = true;
  }

  -- A message with at most 100 requests, none of them null, goes to the provider one request at a
  -- time and in order, up to the first that the provider pump no longer takes, if the chain allows
  -- the methods of them all. Otherwise none goes there, and the client gets a rejection of each.
  pub client_message-passed_on :
      (room bad : ℕ) (message : Text) (q : BatchRequest) (reqs : List Request)
      → decode_batch_request json message ≡ done (ok q)
      → length q.requests ≤ max_batch_size
      → deref_all q.requests ≡ done reqs
      → client_message json (some c) room bad message
        ≡ done (if all (allowed c) reqs then passed_on room reqs else turned_down reqs)
  unfolding client_message on_batch unless_rejected answer_rejected turned_down
  client_message-passed_on room bad message q reqs decodes few members =
      let small : ltb max_batch_size (length q.requests) ≡ false = ground arith in
      let same = deref_all-map q.requests reqs members in
      rw (decodes, small, reject_disallowed-whole json c q.requests, members)
        (elim (Bool-cases (all (allowed c) reqs)) [
          | inl every ↦ rw every (rw same (send_each-passed_on room reqs))
          | inr some_not ↦ rw some_not refl
        ])

  -- A message that does not decode, or holds too many requests
  pub data IsBad (message : Text) : Type 0 where
    undecodable : (e : Error) → decode_batch_request json message ≡ done (err e) → IsBad message
    too_many :
        (q : BatchRequest)
        → decode_batch_request json message ≡ done (ok q)
        → max_batch_size < length q.requests
        → IsBad message

  bad_message :
      (room bad : ℕ) (message : Text)
      → IsBad message
      → client_message json (some c) room bad message ≡ done (bad_request bad)
  unfolding client_message on_batch
  bad_message room bad message (undecodable e decodes) = rw decodes refl
  bad_message room bad message (too_many q decodes many) =
      let large : ltb max_batch_size (length q.requests) ≡ true = ground arith in
      rw (decodes, large) refl

  -- Messages in a row, as long as the pump goes on
  pub feed : ℕ → ℕ → List Text → Outcome (ℕ × Bool)
  feed room bad [] = done (bad, true)
  feed room bad (m ∷ ms) = client_message json (some c) room bad m >>= λ a.
      (let rest = feed room a.bad_requests ms in
        if a.goes_on then rest else done (a.bad_requests, false))

  -- From a count of at most 10, the pump goes on over bad messages in a row as long as the count
  -- stays at 10 or below, and stops when it reaches 11.
  pub feed-bad :
      (room bad : ℕ) (ms : List Text)
      → bad ≤ 10
      → All IsBad ms
      → feed room bad ms
        ≡ done (if leb (bad + length ms) 10 then (bad + length ms, true) else (11, false))
  unfolding feed bad_request
  feed-bad room bad [] h every = ground arith
  feed-bad room bad (m ∷ ms) h every =
      rw (bad_message room bad m every.0) (elim (Bool-cases (ltb 10 (bad + 1))) [
        | inl over ↦ rw over (ground arith)
        | inr under ↦ rw under (ground (arith, feed-bad room (bad + 1) ms (ground arith) every.1))
      ])
