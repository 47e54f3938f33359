-- ===== src/Examples/Servers.antt =====
-- Requests of clients, from the dispatch to the answer.
use haprovider.Prelude.{
  ◌≡◌, refl, Bool, sym, ◌∙◌, inl, Any, text_eq_iff, true, false, [], ◌∷◌, none, some, ℤ, map, Text,
  text, text_eq, Dict, if◌then◌else◌, member, to_lower, trim_space, drop, lookup, insert,
}
use haprovider.Prelude.Outcome.{done}
use haprovider.Rpc.Id.{unmarshal_id}
use haprovider.Rpc.Message.{is_error}
use haprovider.Rpc.Batch.{
  Result, ok, unmarshal_batch_request, decode_batch_response, unmarshal_batch_response,
}
use haprovider.Rpc.Batch.Requests.{NoNullRequests}
use haprovider.Core.Provider.{mark_unhealthy, supports_method}
use haprovider.Core.Endpoint.{Endpoint, Kind, authorized, fresh_endpoint, get_max_response_size}
use haprovider.Chain.{new, ethereum}
use haprovider.Chain.Methods.{coalesceable, coalesceable_eth, allow_method}
use haprovider.Chain.Reject.{reject_disallowed}
use haprovider.Metrics.Labels.{no_labels, admit_method}
use haprovider.Httpx.{read_upstream_body}
use haprovider.Failover.Visit.{visit}
use haprovider.Failover.Visit.{Forward}
use haprovider.Failover.Loop.{forward_with_failover}
use haprovider.Server.{Incoming, answer}
use haprovider.Server.Auth.{authenticate, bearer_token}
use haprovider.Server.Auth.Bearer.{IsAuthenticated, authenticate-IsAuthenticated}
use haprovider.Server.Dispatch.{Site, route}
use haprovider.Server.HttpApi.Loop.{Setup}
use haprovider.Server.Serve.{Around, serve, by_rpc}
use haprovider.Server.Serve.Cleared.{AllKnown, Cleared, serve-Cleared}
use haprovider.Ws.Tracker.{new_tracker}
use haprovider.Server.Reply.{write_batch_response}
use haprovider.Server.Coalesce.{
  coalesce_key, recovered, Turn, leads, joins, Handled, coalesce_request, detached,
}
use haprovider.Server.Coalesce.Own.{single, IsShared}
use haprovider.Server.Coalesce.Calls.{
  Call, result_of, Returned, IsServed, coalesce_request-IsServed,
}
use haprovider.Server.Handler.{World, incoming_rpc, coalesced}
use haprovider.Server.Handler.Total.{incoming_rpc-done}
use haprovider.Examples.Codec.{ask, codec, codec-IsFilled, calls, first_call}
use haprovider.Examples.Failovers.{served as one_served, visits, ended, no_nulls, up, is_eth}

abbrev guarded : Endpoint
guarded = record (fresh_endpoint (text "eth") Kind.eth) { auth_keys = text "secret" ∷ [] }

abbrev guarded_site : Site
guarded_site = record { endpoint = guarded; providers = up (text "good") ∷ [] }

abbrev sites : Dict Site
sites = (text "eth", guarded_site) ∷ []

abbrev headers_of_call : Text → Text
headers_of_call name =
    if text_eq name (text "Authorization")
    then text "BEARER secret "
    else if text_eq name (text "Content-Type")
    then text "application/json"
    else []

abbrev call : Incoming
call = record {
  id = text "eth";
  path = [];
  method = text "POST";
  raw_query = [];
  remote_addr = text "10.0.0.1:7";
  header = headers_of_call;
  body = text "{}";
  broken = none;
}

passes : authenticate guarded headers_of_call ≡ true
unfolding authenticate bearer_token authorized text text_eq to_lower drop trim_space
passes = refl

authenticate-IsAuthenticated_example : IsAuthenticated guarded headers_of_call
authenticate-IsAuthenticated_example =
    (authenticate-IsAuthenticated guarded headers_of_call).0 passes

-- No other request is under way.
abbrev alone : Text → Turn
alone key = leads

abbrev world : World
world = record { visits = visits; labels = no_labels; finished = 12; group = alone; gone = false }

abbrev plain : Endpoint
plain = fresh_endpoint (text "eth") Kind.eth

-- The answer of the third provider, under the client's id
abbrev written : Handled
written = record {
  answer =
      answer 200
        ((text "Content-Type", text "application/json; charset=utf-8")
          ∷ (text "X-Provider", text "good")
          ∷ [])
        (text "{");
  forwarded = some ended;
}

abbrev show : ℤ → Text
show d = []

handles : incoming_rpc codec show plain [] world call ≡ done written
unfolding incoming_rpc unmarshal_batch_request reject_disallowed allow_method new coalesced
    coalesceable coalesceable_eth member coalesce_request detached forward_with_failover visit
    supports_method read_upstream_body get_max_response_size decode_batch_response
    unmarshal_batch_response unmarshal_id is_error mark_unhealthy admit_method write_batch_response
    text text_eq
handles = refl

abbrev setup : Setup
setup = record {
  escape = λ t. t;
  canonical = λ t. t;
  split_host_port = λ t. none;
  show = show;
  user_agent = text "haprovider/1.0";
  real_ip_header = [];
}

abbrev around : Around
around = record {
  rpc = λ s. world;
  api = λ s. [];
  labels = no_labels;
  attempts = λ s. [];
  setting = record {
    gone = false;
    upgrades = true;
    on_primary = true;
    events = [];
    during = λ t. done t;
  };
  tracker = new_tracker;
}

all_known : AllKnown sites call
unfolding new lookup text_eq text
all_known s named = let same : guarded_site ≡ s = cc in rw (← same) (λ e. cc)

-- The same answer, at the endpoint with a key
abbrev served : Handled
served = record {
  answer =
      answer 200
        ((text "Content-Type", text "application/json; charset=utf-8")
          ∷ (text "X-Provider", text "good")
          ∷ (text "Server", text "haprovider/1.0")
          ∷ [])
        (text "{");
  forwarded = some ended;
}

serves : serve codec setup call around sites (text "1.0") ≡ done (by_rpc guarded_site served)
unfolding serve route authenticate bearer_token authorized to_lower drop trim_space lookup insert
    incoming_rpc unmarshal_batch_request reject_disallowed allow_method new coalesced coalesceable
    coalesceable_eth member coalesce_request detached forward_with_failover visit supports_method
    read_upstream_body get_max_response_size decode_batch_response unmarshal_batch_response
    unmarshal_id is_error mark_unhealthy admit_method write_batch_response text text_eq
serves = refl

serve-Cleared_example : Cleared codec sites call (by_rpc guarded_site served)
serve-Cleared_example =
    serve-Cleared codec setup sites call around (text "1.0") (by_rpc guarded_site served) all_known
      serves

none_joined :
    (key : Text) (value : _)
    → alone key ≡ joins value
    → IsShared codec show plain [] ethereum key value
none_joined key value h = cc

can_share : coalesceable ethereum first_call.method ≡ true
unfolding coalesceable coalesceable_eth member text_eq text
can_share = refl

-- The codec reads every array of requests as two calls.
no_null_requests : NoNullRequests codec call.body
no_null_requests v rs value found = let same : map some calls ≡ rs = cc in rw (← same) tt

-- A second client asks the same as the first while the call of that one is under way.
abbrev first_client : Call codec show plain []
first_client = record { request = first_call; visits = visits; labels = no_labels; finished = 12 }

abbrev second_client : Call codec show plain []
second_client = record first_client { request = ask (text "2") (text "eth_call") }

under_way : Text → Turn
unfolding coalesce_key text_eq
under_way key = if text_eq key (coalesce_key first_call) then joins (ok one_served) else leads

first_result : result_of codec show plain [] first_client ≡ ok one_served
unfolding forward_with_failover visit supports_method read_upstream_body get_max_response_size
    decode_batch_response unmarshal_batch_response unmarshal_id is_error mark_unhealthy admit_method
    recovered detached new
first_result = refl

picked :
    (b : Bool) (value : Result Forward)
    → (if b then joins (ok one_served) else leads) ≡ joins value
    → (b ≡ true) × (ok one_served ≡ value)
picked true value h = (refl, cc)
picked false value h = cc

joins_first :
    (key : Text) (value : Result Forward)
    → under_way key ≡ joins value
    → Any (Returned codec show plain [] ethereum key value) (first_client ∷ [])
unfolding under_way
joins_first key value h =
    let (same, value_of) = picked (text_eq key (coalesce_key first_call)) value h in
    inl (record {
      coalesces = can_share;
      keyed = sym ((text_eq_iff key (coalesce_key first_call)).0 same);
      value_of = first_result ∙ value_of;
    })

coalesce_request-IsServed_example :
    (h : Handled) × (coalesce_request codec [] plain second_client.request
        (forward_with_failover codec
          (single codec show plain [] second_client.request)
          (detached visits)
          no_labels
          12)
        false
        under_way
      ≡ done h)
    × IsServed codec show plain []
        (first_client ∷ [])
        second_client
        (under_way (coalesce_key second_client.request))
        h.answer
coalesce_request-IsServed_example =
    coalesce_request-IsServed codec show plain [] ethereum (first_client ∷ []) second_client
      under_way can_share joins_first

incoming_rpc-done_example : (h : Handled) × (incoming_rpc codec show plain [] world call ≡ done h)
incoming_rpc-done_example =
    incoming_rpc-done codec show plain [] world codec-IsFilled is_eth
      (λ reqs is_batch. (no_nulls _, (no_nulls _, (no_nulls _, tt)))) none_joined call
      no_null_requests
