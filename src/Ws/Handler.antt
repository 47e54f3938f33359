-- ===== src/Ws/Handler.antt =====
-- IncomingWebsocketHandler of internal/ws/ws.go: a client from its dialled provider to the end of its
-- connection. Logs and Prometheus counters are left out.
pub mod Balance
use haprovider.Prelude.{
  ℕ, ◌-◌, ◌*◌, Bool, true, false, not, ◌&&◌, List, [], ◌∷◌, Option, none, some, ℤ, ltb,
  if◌then◌else◌, Text, text, Dict, ◌++◌,
}
use haprovider.Prelude.Outcome.{Outcome, done, panicked, ◌>>=◌}
use haprovider.Rpc.Error.{
  Error, no_providers_available, failure, error_message, code_no_providers_available,
  code_internal_error,
}
use haprovider.Rpc.Json.{Json}
use haprovider.Rpc.Batch.{Result, ok, err}
use haprovider.Core.Time.{minute}
use haprovider.Core.Provider.{Provider}
use haprovider.Core.Endpoint.{Endpoint}
use haprovider.Chain.Reject.{error_response_to}
use haprovider.Server.{Answer, silent, answer}
use haprovider.Server.Reply.{body_of, as_json}
use haprovider.Ws.Tracker.{Tracker, add, release}
use haprovider.Ws.Pump.{
  Act, close_client, close_provider, normal_closure, going_away, service_restart, try_again_later,
}

abbrev pub primary_provider_alive_threshold : ℕ
primary_provider_alive_threshold = 5 * minute

-- What wakes the select of the handler: the ticker, with the first provider at that time, the start
-- of a shutdown, and the end of the proxy, of the client's connection or of the provider's, with its
-- cause.
pub data Event : Type 0 where
  tick : (primary : Provider) (now : ℕ) → Event
  shutting_down proxy_done : Event
  client_done provider_done : Error → Event

-- The condition under which a client of another provider is sent back to the first one
unfoldable pub primary_is_back : Bool → Provider → ℕ → Bool
primary_is_back on_primary primary now =
    not on_primary
    && primary.online
    && ltb primary_provider_alive_threshold (now - primary.last_state_change)

caused : Text → Error → Error
unfolding error_message
caused message cause = failure (message ++ error_message cause)

-- One round of the select: `none` if the loop goes on, or else what it closes
unfoldable pub on_event : Bool → Event → Option (List Act)
unfolding primary_is_back caused text
on_event on_primary (tick primary now) =
    if primary_is_back on_primary primary now
    then some (
        close_client service_restart (some (failure (text "primary provider is back online")))
        ∷ close_provider going_away none
        ∷ [])
    else none
on_event on_primary shutting_down = some (
    close_client going_away (some (failure (text "haprovider shutting down")))
    ∷ close_provider going_away none
    ∷ [])
on_event on_primary proxy_done = some []
on_event on_primary (client_done cause) =
    some (close_provider going_away (some (caused (text "client connection closed: ") cause)) ∷ [])
on_event on_primary (provider_done cause) =
    some (
      close_client try_again_later (some (caused (text "provider connection closed: ") cause)) ∷ [])

-- The loop round the select; it is still waiting if the events end before.
unfoldable pub watch : Bool → List Event → Option (List Act)
unfolding on_event
watch on_primary [] = none
watch on_primary (e ∷ es) =
    let rest = watch on_primary es in
    elim (on_event on_primary e) [ none ↦ rest | some acts ↦ some acts ]

-- What the handler leaves: the tracker, its answer if the client is not upgraded, and what it closes
pub record Ran : Type 0 where
  pub tracker : Tracker
  pub answer : Answer
  pub acts : List Act

-- What the handler meets: whether the client has left when dialling fails, whether the upgrade
-- succeeds, whether the provider is the first one, the events that wake it, and what other goroutines
-- do to the tracker while the connection is counted.
pub record Setting : Type 0 where
  pub gone : Bool
  pub upgrades : Bool
  pub on_primary : Bool
  pub events : List Event
  pub during : Tracker → Outcome Tracker

module _ (json : Json) (headers : Dict Text) where
  -- writeHandshakeError
  unfoldable pub write_handshake_error : ℕ → ℤ → Text → Answer
  unfolding as_json body_of error_response_to
  write_handshake_error status code message =
      answer status (as_json headers) (body_of json (error_response_to json [] code message))

  -- The deferred call of `done`
  unregistered : List Act → Answer → Tracker → Outcome Ran
  unfolding release
  unregistered acts a t = release t >>= λ u. done (record { tracker = u; answer = a; acts = acts })

  -- With the connection registered. Upgrade has answered by itself where it fails, too.
  upgraded : Setting → Tracker → Outcome (Option Ran)
  unfolding unregistered watch
  upgraded s t =
      if not s.upgrades
      then (unregistered (close_provider normal_closure none ∷ []) (answer 500 headers []) t
          >>= λ r. done (some r))
      else elim (watch s.on_primary s.events) [
        | none ↦ done none
        | some acts ↦ unregistered acts silent t >>= λ r. done (some r)
      ]

  registered : Setting → Tracker × Bool → Outcome (Option Ran)
  unfolding upgraded write_handshake_error text
  registered s (t, true) = s.during t >>= λ u. upgraded s u
  registered s (t, false) = done (
      some (record {
        tracker = t;
        answer = write_handshake_error 503 code_no_providers_available (text "shutting down");
        acts = close_provider going_away none ∷ [];
      }))

  -- IncomingWebsocketHandler, from the result of DialAnyProvider on; `none` if it still waits.
  unfoldable pub incoming_websocket : Setting → Tracker → Result Provider → Outcome (Option Ran)
  unfolding registered add write_handshake_error text
  incoming_websocket s t (err no_providers_available) = done (
      some (record {
        tracker = t;
        answer =
            write_handshake_error 503 code_no_providers_available (text "no providers available");
        acts = [];
      }))
  incoming_websocket s t (err e) = done (
      some (record {
        tracker = t;
        answer =
            if s.gone
            then silent
            else write_handshake_error 500 code_internal_error (text "error dialing provider");
        acts = [];
      }))
  incoming_websocket s t (ok p) = registered s (add t)
