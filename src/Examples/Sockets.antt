-- ===== src/Examples/Sockets.antt =====
-- WebSocket connections and their messages.
use haprovider.Prelude.{
  ◌≡◌, refl, true, false, List, [], ◌∷◌, none, some, pos, map, all, is_empty, Text, text,
  if◌then◌else◌, arith,
}
use haprovider.Prelude.Outcome.{done, deref_all}
use haprovider.Rpc.Id.{unmarshal_id}
use haprovider.Rpc.Batch.{
  ok, err, bad_json, decode_response, decode_batch_request, unmarshal_batch_request,
}
use haprovider.Core.Provider.{Provider}
use haprovider.Chain.{ethereum, bitcoin}
use haprovider.Chain.Reject.Whole.{allowed}
use haprovider.Metrics.Labels.{no_labels}
use haprovider.Failover.Visit.{Meaning, classify}
use haprovider.Ws.Client.{
  Client, new_client, close_begin, close_called, write_queued, Reach, here, next,
}
use haprovider.Ws.Client.Safety.{IsValid, Reach-IsValid}
use haprovider.Ws.Client.Closing.{Closes, Reach-Closes}
use haprovider.Ws.Tracker.{Tracker, new_tracker}
use haprovider.Ws.Pump.{Link, Heard, settle, provider_message, client_message}
use haprovider.Ws.Pump.Pending.{Event, sent, answered, pending_after, waiting, settle-waiting}
use haprovider.Ws.Pump.Upstream.{IsForwarded, provider_message-IsForwarded}
use haprovider.Ws.Pump.Downstream.{passed_on, turned_down, client_message-passed_on}
use haprovider.Ws.Dial.{Attempt, connected, throttled, dial_any}
use haprovider.Ws.Dial.Choice.{tried, IsChosen, dial_any-IsChosen}
use haprovider.Ws.Handler.{Setting, shutting_down, incoming_websocket}
use haprovider.Ws.Handler.Balance.{Leaves, incoming_websocket-Leaves}
use haprovider.Examples.Codec.{codec, calls, answer as rpc_answer}
use haprovider.Examples.Failovers.{up, down}

-- A message is queued, and then Close is called.
abbrev queued : Client
queued = record new_client { send = text "hello" ∷ [] }

closing_run : Reach new_client (close_begin queued (text "bye"))
closing_run =
    next (next here (write_queued (text "hello") (omega arith))) (close_called (text "bye") refl)

Reach-IsValid_example : IsValid (close_begin queued (text "bye"))
Reach-IsValid_example = Reach-IsValid closing_run

Reach-Closes_example : Closes (close_begin queued (text "bye"))
unfolding close_begin
Reach-Closes_example = Reach-Closes (text "bye") closing_run refl

-- Two requests under one id, of which the second counts.
abbrev traffic : List Event
traffic =
    sent (text "1") (text "eth_call")
    ∷ answered (text "2")
    ∷ sent (text "1") (text "eth_chainId")
    ∷ []

settle-waiting_example : (settle (pending_after traffic) (text "1")).0 ≡ (
    if is_empty (text "1")
    then []
    else (elim (waiting (text "1") traffic) [ none ↦ [] | some m ↦ m ]))
settle-waiting_example = settle-waiting (text "1") traffic

abbrev link : Link
link = record { provider = up (text "good"); pending = []; labels = no_labels }

decodes_response : decode_response codec (text "{}") ≡ ok (rpc_answer (text "1") (text "7"))
unfolding decode_response unmarshal_id text
decodes_response = refl

provider_message-IsForwarded_example :
    (m : Meaning) × (h : Heard) × (classify codec (some ethereum) (rpc_answer (text "1") (text "7"))
      ≡ done m)
    × (provider_message codec (some ethereum) true true link (text "{}") 7 ≡ done h)
    × IsForwarded true link (rpc_answer (text "1") (text "7")) 7 h m
provider_message-IsForwarded_example =
    provider_message-IsForwarded codec ethereum true link (text "{}") 7
      (rpc_answer (text "1") (text "7")) decodes_response

decodes_nothing : decode_response codec [] ≡ err bad_json
unfolding decode_response
decodes_nothing = refl

decodes_calls :
    decode_batch_request codec (text "[]")
    ≡ done (ok (record { requests = map some calls; is_batch = true }))
unfolding decode_batch_request unmarshal_batch_request unmarshal_id text
decodes_calls = refl

members : deref_all (map some calls) ≡ done calls
unfolding deref_all
members = refl

client_message-passed_on_example :
    client_message codec (some bitcoin) 1 3 (text "[]")
    ≡ done
        (if all (allowed bitcoin) calls then passed_on 1 calls else turned_down codec bitcoin calls)
client_message-passed_on_example =
    client_message-passed_on codec bitcoin 1 3 (text "[]")
      (record { requests = map some calls; is_batch = true }) calls decodes_calls (omega arith)
      members

undecoded : decode_batch_request codec [] ≡ done (err bad_json)
unfolding decode_batch_request
undecoded = refl

abbrev nothings : List Text
nothings = [] ∷ [] ∷ []

abbrev with_ws : Text → Provider
with_ws name = record (up name) { ws = text "wss://node.example" }

abbrev attempts : List Attempt
attempts =
    record {
      provider = down;
      handshake = connected;
      during = λ p. p;
      returned = 11;
      cancelled = none;
    }
    ∷ record {
      provider = with_ws (text "busy");
      handshake = throttled (text "30");
      during = λ p. p;
      returned = 12;
      cancelled = none;
    }
    ∷ record {
      provider = with_ws (text "good");
      handshake = connected;
      during = λ p. p;
      returned = 13;
      cancelled = none;
    }
    ∷ []

dial_any-IsChosen_example : IsChosen (map tried attempts) (dial_any (λ d. []) attempts)
dial_any-IsChosen_example = dial_any-IsChosen (λ d. []) attempts

abbrev setting : Setting
setting = record {
  gone = false;
  upgrades = true;
  on_primary = true;
  events = shutting_down ∷ [];
  during = λ t. done t;
}

undisturbed : (t u : Tracker) → done t ≡ done u → u.n ≡ t.n
undisturbed t u h = let same : t ≡ u = cc in rw same refl

incoming_websocket-Leaves_example :
    Leaves (pos 0) (incoming_websocket codec [] setting new_tracker (ok (with_ws (text "good"))))
incoming_websocket-Leaves_example =
    incoming_websocket-Leaves codec [] setting new_tracker (ok (with_ws (text "good"))) undisturbed
