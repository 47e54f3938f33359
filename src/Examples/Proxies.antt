-- ===== src/Examples/Proxies.antt =====
-- A WebSocket proxy whose two pumps wait for each other.
use haprovider.Prelude.{
  ℕ, zero, suc, ◌≡◌, ◌⊎◌, refl, true, List, [], ◌∷◌, none, some, map, all, text, arith,
}
use haprovider.Prelude.Outcome.{done, deref_all}
use haprovider.Rpc.Id.{unmarshal_id}
use haprovider.Rpc.Error.{failure}
use haprovider.Rpc.Message.{Request, Response, is_error}
use haprovider.Rpc.Json.{Json}
use haprovider.Rpc.Batch.{
  ok, BatchRequest, decode_response, decode_batch_request, unmarshal_batch_request,
}
use haprovider.Chain.{ethereum}
use haprovider.Chain.Methods.{allow_method}
use haprovider.Chain.Reject.Whole.{allowed}
use haprovider.Failover.Visit.{for_client, classify}
use haprovider.Metrics.Labels.{no_labels}
use haprovider.Ws.Pump.{Link, Act, close_client, close_provider, going_away}
use haprovider.Ws.Handler.{shutting_down, on_event}
use haprovider.Ws.Proxy.{ClientPump, ProviderPump, Proxy, connected}
use haprovider.Ws.Proxy.Steps.{Reach}
use haprovider.Ws.Proxy.Order.{IsInOrder}
use haprovider.Ws.Proxy.Order.Kept.{Reach-IsInOrder}
use haprovider.Ws.Proxy.Ending.Returned.{Returns, Reach-Returns}
use haprovider.Ws.Proxy.Deadlock.{IsBlocked}
use haprovider.Ws.Proxy.Deadlock.Reached.{Reach-IsBlocked}
use haprovider.Ws.Proxy.Deadlock.Only.{ClientMoves, ProviderMoves, IsIdle, pumps-go_on}
use haprovider.Examples.Codec.{codec, first_call, answer}
use haprovider.Examples.Failovers.{up}

abbrev repeat : ℕ → List Request
repeat zero = []
repeat (suc n) = first_call ∷ repeat n

abbrev batch : BatchRequest
batch = record { requests = map some (repeat 33); is_batch = true }

-- Each batch is read as 33 calls.
abbrev busy : Json
busy = record codec { requests_of = λ b. some (map some (repeat 33)) }

abbrev link : Link
link = record { provider = up (text "good"); pending = []; labels = no_labels }

abbrev seven : Response
seven = answer (text "1") (text "7")

decodes_batch : decode_batch_request busy (text "[]") ≡ done (ok batch)
unfolding decode_batch_request unmarshal_batch_request unmarshal_id text
decodes_batch = refl

members : deref_all batch.requests ≡ done (repeat 33)
unfolding deref_all
members = refl

every : all (allowed ethereum) (repeat 33) ≡ true
unfolding allow_method
every = refl

decodes_seven : decode_response busy (text "{}") ≡ ok seven
unfolding decode_response unmarshal_id text
decodes_seven = refl

fine : classify busy (some ethereum) seven ≡ done for_client
unfolding classify is_error
fine = refl

abbrev Stuck : Type 0
Stuck = (s : Proxy) × Reach busy (some ethereum) true (connected link) s × IsBlocked s

stuck : Stuck
stuck =
    Reach-IsBlocked busy ethereum true (text "{}") seven 3 decodes_seven fine link (text "[]") batch
      (repeat 33) decodes_batch (omega arith) members every (omega arith) (omega arith)

Reach-IsBlocked_example : Stuck
Reach-IsBlocked_example =
    Reach-IsBlocked busy ethereum true (text "{}") seven 3 decodes_seven fine link (text "[]") batch
      (repeat 33) decodes_batch (omega arith) members every (omega arith) (omega arith)

Reach-IsInOrder_example : IsInOrder busy stuck.0
Reach-IsInOrder_example = Reach-IsInOrder busy (some ethereum) link stuck.1

sends_still : stuck.0.client_pump ≡ ClientPump.returned → ⊥
sends_still h = let e = stuck.2.hands_request in cc

answers_still : stuck.0.provider_pump ≡ ProviderPump.returned → ⊥
answers_still h = let e = stuck.2.hands_response in cc

pumps-go_on_example :
    ClientMoves busy (some ethereum) stuck.0
    ⊎ ProviderMoves busy (some ethereum) stuck.0
    ⊎ IsIdle stuck.0
    ⊎ IsBlocked stuck.0
pumps-go_on_example = pumps-go_on busy (some ethereum) link stuck.1 sends_still answers_still

abbrev on_shutdown : List Act
on_shutdown =
    close_client going_away (some (failure (text "haprovider shutting down")))
    ∷ close_provider going_away none
    ∷ []

on_shutting_down : on_event true shutting_down ≡ some on_shutdown
unfolding on_event
on_shutting_down = refl

-- A shutdown frees the two.
Reach-Returns_example : Returns busy (some ethereum) true stuck.0
Reach-Returns_example =
    Reach-Returns busy (some ethereum) true link stuck.0 shutting_down on_shutdown stuck.1 tt
      on_shutting_down
