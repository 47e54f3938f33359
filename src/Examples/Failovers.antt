-- ===== src/Examples/Failovers.antt =====
-- Requests that go from provider to provider.
use haprovider.Failover.Attribution.{response_methods}
use haprovider.Failover.Attribution.ById.{expected, response_methods-expected}
use haprovider.Prelude.{
  ◌≡◌, refl, true, false, List, [], ◌∷◌, none, some, Any, Text, text, lookup, arith,
}
use haprovider.Prelude.Outcome.{done}
use haprovider.Rpc.Error.{status, failure}
use haprovider.Rpc.Id.{unmarshal_id}
use haprovider.Rpc.Message.{Response, is_error}
use haprovider.Rpc.Batch.{ok, decode_batch_response, unmarshal_batch_response}
use haprovider.Core.Provider.{Provider, fresh_provider, mark_unhealthy, supports_method}
use haprovider.Core.Endpoint.{Kind, fresh_endpoint, get_max_response_size}
use haprovider.Metrics.Labels.{Labels, no_labels, admit_method}
use haprovider.Httpx.{Reply, no_reply, reply, read_upstream_body, send_rpc_batch_request}
use haprovider.Failover.Visit.{Job, Visit, Forward, Vars, After, supports_all, visit}
use haprovider.Failover.Visit.Fits.{Fits}
use haprovider.Failover.Visit.Lost.{Fails, visit-offline, visit-failure, visit-mismatch}
use haprovider.Failover.Loop.{Ended, forward_with_failover}
use haprovider.Failover.Loop.Served.{forward_with_failover-Fits}
use haprovider.Failover.Loop.Order.{next, none_left, forward_with_failover-first}
use haprovider.Httpx.Total.{NoNulls}
use haprovider.Chain.{new, ethereum}
use haprovider.Failover.Loop.Total.{forward_with_failover-done}
use haprovider.Examples.Codec.{codec-IsFilled, codec, ask, answer, refusal, calls}

abbrev pub down : Provider
down = fresh_provider (text "down") (text "http://a") []

abbrev pub up : Text → Provider
up name = record down { name = name; online = true; last_state_change = 1 }

abbrev pub at : Provider → Reply → Visit
at p r = record {
  provider = p;
  arrived = 10;
  upstream = λ url body. r;
  during = λ q. q;
  returned = 11;
  cancelled = none;
}

abbrev pub single : Job
single = record {
  endpoint = fresh_endpoint (text "eth") Kind.eth;
  requests = ask (text "1") (text "eth_call") ∷ [];
  is_batch = false;
  show = λ d. [];
}

abbrev pub visits : List Visit
visits =
    at down (reply 200 [] (b'{' ∷ []) none)
    ∷ at (up (text "broken")) (reply 500 [] [] none)
    ∷ at (up (text "good")) (reply 200 [] (b'{' ∷ []) none)
    ∷ []

-- The first provider is offline, the second is lost, and the third serves the request.
abbrev pub served : Forward
served = record {
  responses = answer (text "1") (text "7") ∷ [];
  is_batch = false;
  provider = text "good";
}

abbrev pub one_label : Labels
one_label = record { admitted = text "eth_call" ∷ []; count = 1 }

abbrev pub lost : Provider
lost = record (up (text "broken")) { online = false; last_state_change = 11 }

abbrev pub ended : Ended
ended = record {
  providers = down ∷ lost ∷ up (text "good") ∷ [];
  labels = one_label;
  result = ok served;
}

ends : forward_with_failover codec single visits no_labels 12 ≡ done ended
unfolding forward_with_failover visit supports_method read_upstream_body get_max_response_size
    decode_batch_response unmarshal_batch_response unmarshal_id is_error mark_unhealthy admit_method
ends = refl

forward_with_failover-Fits_example : Any (λ v. Fits codec single v served) visits
forward_with_failover-Fits_example =
    forward_with_failover-Fits codec single visits no_labels 12 ended served ends refl

abbrev first : Visit
first = at down (no_reply (failure []))

abbrev good : Visit
good = at (up (text "good")) (reply 200 [] (b'{' ∷ []) none)

abbrev labelled : Vars
labelled = record {
  method_unsupported = false;
  request_too_large = false;
  last_try_next = none;
  labels = one_label;
}

abbrev after_good : After
after_good = record { provider = up (text "good"); vars = labelled; returns = some (ok served) }

abbrev plain : Vars
plain = record labelled { labels = no_labels }

good_serves : visit codec single good plain ≡ done after_good
unfolding visit supports_method read_upstream_body get_max_response_size decode_batch_response
    unmarshal_batch_response unmarshal_id is_error admit_method
good_serves = refl

forward_with_failover-first_example :
    forward_with_failover codec single (first ∷ good ∷ visits) no_labels 12
    ≡ done (record {
      providers = down ∷ up (text "good") ∷ down ∷ up (text "broken") ∷ up (text "good") ∷ [];
      labels = one_label;
      result = ok served;
    })
forward_with_failover-first_example =
    forward_with_failover-first codec single good visits no_labels 12
      (next (visit-offline codec single first plain refl) refl none_left) good_serves refl

-- A status 500 with no body
abbrev broken : Visit
broken = at (up (text "broken")) (reply 500 [] [] none)

visit-failure_example :
    (a : After) × (visit codec single broken plain ≡ done a)
    × (a.returns ≡ none)
    × Fails single.requests (up (text "broken")) (status 500) 11 a.provider
unfolding send_rpc_batch_request supports_all supports_method lookup read_upstream_body
    get_max_response_size decode_batch_response
visit-failure_example =
    visit-failure codec single broken plain (up (text "broken")) (status 500) refl refl refl refl

abbrev two_calls : Job
two_calls = record single { requests = calls; is_batch = true }

abbrev bad_request : Visit
bad_request = at (up (text "strict")) (reply 400 [] (text "{!") none)

-- A batch of two, answered with the status 400 and one error object
visit-mismatch_example :
    (a : After) × (visit codec two_calls bad_request plain ≡ done a)
    × (a.returns ≡ none)
    × (a.provider.online ≡ false)
unfolding send_rpc_batch_request supports_all supports_method lookup read_upstream_body
    get_max_response_size decode_batch_response unmarshal_batch_response unmarshal_id is_error
visit-mismatch_example =
    visit-mismatch codec two_calls bad_request plain (up (text "strict"))
      (record { responses = some (refusal (text "1")) ∷ []; is_batch = false }) refl refl refl refl
      (λ e. omega arith)

-- The answers come in the other order.
abbrev swapped : List Response
swapped = answer (text "2") (text "1") ∷ answer (text "1") (text "7") ∷ []

response_methods-expected_example :
    response_methods codec calls true swapped ≡ expected codec calls calls swapped
response_methods-expected_example = response_methods-expected codec calls swapped

-- One provider has been flagged for eth_call.
abbrev lacking : List Provider
lacking = record down { unsupported_methods = (text "eth_call", 5) ∷ [] } ∷ []

-- This codec reads every array of responses as an empty one.
pub no_nulls : (r : Reply) → NoNulls codec single.show single.endpoint (λ url body. r)
no_nulls r p url body now v [] value read = tt
no_nulls r p url body now v (x ∷ xs) value read = cc

pub is_eth : new single.endpoint.kind ≡ some ethereum
unfolding new
is_eth = refl

forward_with_failover-done_example :
    (e : Ended) × (forward_with_failover codec single visits no_labels 12 ≡ done e)
forward_with_failover-done_example =
    forward_with_failover-done codec codec-IsFilled single is_eth visits no_labels 12
      (no_nulls _, (no_nulls _, (no_nulls _, tt)))
