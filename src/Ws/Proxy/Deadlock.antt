-- ===== src/Ws/Proxy/Deadlock.antt =====
-- The two pumps can wait for each other (sendRequest and sendResponse of internal/ws/ws.go).
pub mod Reached
pub mod Only
use haprovider.Prelude.{
  ℕ, ◌≡◌, ◌≤◌, ◌⊎◌, refl, inl, inr, Bool, true, false, List, [], ◌∷◌, Option, length, arith,
}
use haprovider.Rpc.Message.{Request, Response}
use haprovider.Rpc.Json.{Json}
use haprovider.Chain.{Chain}
use haprovider.Ws.Pump.{Act, to_provider, to_client, close_proxy, close_client, close_provider}
use haprovider.Ws.Proxy.{channel_size, ClientPump, ProviderPump, Watcher, closing, Proxy}
use haprovider.Ws.Proxy.Steps.{
  by_itself, ClientStep, ProviderStep, WatcherStep, Step, by_client, by_provider, by_watcher,
  client_breaks, provider_breaks,
}

-- Both pumps are in the middle of handing a message over, both channels are full, and neither the
-- proxy nor one of its connections is closed.
pub record IsBlocked (s : Proxy) : Type 0 where
  pub request : Request
  pub more_acts : List Act
  pub client_goes_on : Bool
  pub hands_request :
      s.client_pump ≡ ClientPump.acting (to_provider request ∷ more_acts) client_goes_on
  pub requests_full : channel_size ≤ length s.requests
  pub response : Response
  pub acts_left : List Act
  pub provider_goes_on : Bool
  pub hands_response :
      s.provider_pump ≡ ProviderPump.acting (to_client response ∷ acts_left) provider_goes_on
  pub responses_full : channel_size ≤ length s.responses
  pub open_still : (s.done ≡ false) × (s.client_done ≡ false) × (s.provider_done ≡ false)

-- What the handler does besides closing is nothing to the pumps.
watched : {s : Proxy} (w : Watcher) → IsBlocked s → IsBlocked (record s { watcher = w })
watched w b = record {
  request = b.request;
  more_acts = b.more_acts;
  client_goes_on = b.client_goes_on;
  hands_request = b.hands_request;
  requests_full = b.requests_full;
  response = b.response;
  acts_left = b.acts_left;
  provider_goes_on = b.provider_goes_on;
  hands_response = b.hands_response;
  responses_full = b.responses_full;
  open_still = b.open_still;
}

module _ (json : Json) (chain : Option Chain) where
  no_client_step : {s t : Proxy} → IsBlocked s → ClientStep json chain s t → ⊥
  no_client_step b (ClientStep.stops e h) = ground (arith, b.hands_request)
  no_client_step b (ClientStep.hears m a e h) = ground arith
  no_client_step b (ClientStep.hands_over r more goes_on e room) = ground arith
  no_client_step b (ClientStep.gives_up r more goes_on e h) = ground arith
  no_client_step b (ClientStep.answers res more goes_on e) = ground arith
  no_client_step b (ClientStep.answer_dropped res more goes_on e h) = ground arith
  no_client_step b (ClientStep.closes a more goes_on e h) = ground arith
  no_client_step b (ClientStep.finishes goes_on e) = ground arith
  no_client_step b (ClientStep.takes_first res rest e first) = ground arith
  no_client_step b (ClientStep.takes_next n res rest e first) = ground arith
  no_client_step b (ClientStep.writes res left e) = ground arith
  no_client_step b (ClientStep.write_dropped res left e h) = ground arith
  no_client_step b (ClientStep.flushed e) = ground arith

  no_provider_step : {s t : Proxy} → IsBlocked s → ProviderStep json chain s t → ⊥
  no_provider_step b (ProviderStep.stops e h) = ground arith
  no_provider_step b (ProviderStep.hears m now h e k) = ground arith
  no_provider_step b (ProviderStep.hands_over res more goes_on e room) = ground arith
  no_provider_step b (ProviderStep.gives_up res more goes_on e h) = ground arith
  no_provider_step b (ProviderStep.closes a more goes_on e h) = ground arith
  no_provider_step b (ProviderStep.finishes goes_on e) = ground arith
  no_provider_step b (ProviderStep.takes_first r rest e first) = ground arith
  no_provider_step b (ProviderStep.takes_next n r rest e first) = ground arith
  no_provider_step b (ProviderStep.writes r left e) = ground arith
  no_provider_step b (ProviderStep.write_dropped r left e h) = ground arith
  no_provider_step b (ProviderStep.flushed e) = ground arith

  -- Once both pumps are blocked they stay so, with the messages that they hold, until the handler
  -- closes something or a connection breaks: neither of them can go on by itself.
  pub Step-IsBlocked :
      (on_primary : Bool) {s t : Proxy}
      → IsBlocked s
      → Step json chain on_primary s t
      → IsBlocked t ⊎ (t.done ≡ true) ⊎ (t.client_done ≡ true) ⊎ (t.provider_done ≡ true)
  Step-IsBlocked on_primary b (by_itself (by_client c)) = absurd (no_client_step b c)
  Step-IsBlocked on_primary b (by_itself (by_provider p)) = absurd (no_provider_step b p)
  Step-IsBlocked on_primary b (by_itself (by_watcher (WatcherStep.woken ev acts e h k))) =
      inl (watched (closing acts) b)
  Step-IsBlocked on_primary b (by_itself (by_watcher (WatcherStep.closes (close_proxy x) more e))) =
      inr (inl refl)
  Step-IsBlocked on_primary b
        (by_itself (by_watcher (WatcherStep.closes (close_client code x) more e))) =
      inr (inr (inl refl))
  Step-IsBlocked on_primary b
        (by_itself (by_watcher (WatcherStep.closes (close_provider code x) more e))) =
      inr (inr (inr refl))
  Step-IsBlocked on_primary b (by_itself (by_watcher (WatcherStep.closes (to_provider r) more e))) =
      inl (watched (closing more) b)
  Step-IsBlocked on_primary b (by_itself (by_watcher (WatcherStep.closes (to_client res) more e))) =
      inl (watched (closing more) b)
  Step-IsBlocked on_primary b (by_itself (by_watcher (WatcherStep.returns e))) = inr (inl refl)
  Step-IsBlocked on_primary b client_breaks = inr (inr (inl refl))
  Step-IsBlocked on_primary b provider_breaks = inr (inr (inr refl))
