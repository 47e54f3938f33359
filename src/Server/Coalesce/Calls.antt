-- ===== src/Server/Coalesce/Calls.antt =====
-- Which of the calls made to a singleflight group answers a client (coalesceRequest of
-- internal/http.go).
use haprovider.Prelude.{ℕ, ◌≡◌, refl, inl, inr, true, false, List, [], ◌∷◌, ℤ, Any, Text, Dict}
use haprovider.Prelude.Outcome.{done}
use haprovider.Rpc.Message.{Request}
use haprovider.Rpc.Json.{Json}
use haprovider.Rpc.Batch.{Result}
use haprovider.Core.Endpoint.{Endpoint}
use haprovider.Chain.{Chain}
use haprovider.Chain.Methods.{coalesceable}
use haprovider.Metrics.Labels.{Labels}
use haprovider.Failover.Visit.{Visit, Forward}
use haprovider.Failover.Loop.{forward_with_failover}
use haprovider.Server.{Answer}
use haprovider.Server.Coalesce.{
  Turn, leads, joins, Handled, coalesce_key, detached, coalesce_request,
}
use haprovider.Server.Coalesce.Own.{
  coalesce_key-same, single, callback, IsShared, Sent, TurnSent, take_turn-TurnSent,
}

module _ (json : Json) (show : ℤ → Text) (e : Endpoint) (headers : Dict Text) where
  -- A call that was made to the group: its request, and what its callback meets
  pub record Call : Type 0 where
    pub request : Request
    pub visits : List Visit
    pub labels : Labels
    pub finished : ℕ

  abbrev pub result_of : Call → Result Forward
  result_of k = callback json show e headers k.request k.visits k.labels k.finished

  -- A coalesced call with that key whose callback returned the value
  pub record Returned (c : Chain) (key : Text) (value : Result Forward) (k : Call) : Type 0 where
    pub coalesces : coalesceable c k.request.method ≡ true
    pub keyed : coalesce_key k.request ≡ key
    pub value_of : result_of k ≡ value

  -- A call for the method and the params of r whose result is the answer to r
  pub record Serves (r : Request) (a : Answer) (k : Call) : Type 0 where
    pub same_method : k.request.method ≡ r.method
    pub same_params : k.request.params ≡ r.params
    pub sent : Sent json show e headers r (result_of k) a

  -- The answer to r is its own result if it leads its turn, and else that of one of the calls.
  pub record IsServed (calls : List Call) (own : Call) (turn : Turn) (a : Answer) : Type 0 where
    pub led : turn ≡ leads → Sent json show e headers own.request (result_of own) a
    pub joined : (value : Result Forward) → turn ≡ joins value → Any (Serves own.request a) calls

  Returned-IsShared :
      (c : Chain) (key : Text) (value : Result Forward) (calls : List Call)
      → Any (Returned c key value) calls
      → IsShared json show e headers c key value
  Returned-IsShared c key value [] m = absurd m
  Returned-IsShared c key value (k ∷ ks) (inl from) = record {
    request = k.request;
    coalesces = from.coalesces;
    keyed = from.keyed;
    visits = k.visits;
    labels = k.labels;
    finished = k.finished;
    returned = from.value_of;
  }
  Returned-IsShared c key value (k ∷ ks) (inr m) = Returned-IsShared c key value ks m

  Returned-Serves :
      (c : Chain) (r : Request) (value : Result Forward) (a : Answer) (calls : List Call)
      → coalesceable c r.method ≡ true
      → Sent json show e headers r value a
      → Any (Returned c (coalesce_key r) value) calls
      → Any (Serves r a) calls
  Returned-Serves c r value a [] may sent m = absurd m
  Returned-Serves c r value a (k ∷ ks) may sent (inl from) =
      let (method, params) = coalesce_key-same c k.request r from.coalesces may from.keyed in
      inl (record { same_method = method; same_params = params; sent = rw from.value_of sent })
  Returned-Serves c r value a (k ∷ ks) may sent (inr m) =
      inr (Returned-Serves c r value a ks may sent m)

  TurnSent-IsServed :
      (c : Chain) (calls : List Call) (own : Call) (turn : Turn) (a : Answer)
      → coalesceable c own.request.method ≡ true
      → ((value : Result Forward)
          → turn ≡ joins value
          → Any (Returned c (coalesce_key own.request) value) calls)
      → TurnSent json show e headers own.request (result_of own) turn a
      → IsServed calls own turn a
  TurnSent-IsServed c calls own leads a may from sent = record {
    led = λ h. sent;
    joined = λ value h. cc;
  }
  TurnSent-IsServed c calls own (joins value) a may from sent = record {
    led = λ h. cc;
    joined = λ other h. Returned-Serves c own.request value a calls may sent (from value refl);
  }

  -- Of the calls made to a group, where it hands over only what the callback of a coalesced one with
  -- the same key returned: coalesceRequest does not panic, and a client that stays is answered with
  -- the result of its own call if that leads, and else with the result of one of those calls, which is
  -- for its own method and params. It gets the error, or the one response under the id of its own
  -- request.
  pub coalesce_request-IsServed :
      (c : Chain) (calls : List Call) (own : Call) (group : Text → Turn)
      → coalesceable c own.request.method ≡ true
      → ((key : Text) (value : Result Forward)
          → group key ≡ joins value
          → Any (Returned c key value) calls)
      → (h : Handled) × (coalesce_request json headers e own.request
            (forward_with_failover json
              (single json show e headers own.request)
              (detached own.visits)
              own.labels
              own.finished)
            false
            group
          ≡ done h)
        × IsServed calls own (group (coalesce_key own.request)) h.answer
  unfolding coalesce_request
  coalesce_request-IsServed c calls own group may from =
      let key = coalesce_key own.request in
      let (h, runs, sent) =
        take_turn-TurnSent json show e headers c own.request own.visits own.labels own.finished
          (group key)
          (λ value joined. Returned-IsShared c key value calls (from key value joined)) in
      (h, runs, TurnSent-IsServed c calls own (group key) h.answer may (from key) sent)
