-- ===== src/Ws/Proxy/Ending/Kept.antt =====
-- The goroutines of a proxy keep their promises to close things (internal/ws/ws.go).
use haprovider.Prelude.{◌≡◌, ◌⊎◌, inl, refl, Bool, true, false, List, [], ◌∷◌, Option, some, arith}
use haprovider.Rpc.Json.{Json}
use haprovider.Chain.{Chain}
use haprovider.Ws.Pump.{Act, Link}
use haprovider.Ws.Pump.Acts.{closes_client, closes_provider, is_close, will}
use haprovider.Ws.Pump.Shape.{client_message-IsShaped, provider_message-IsShaped}
use haprovider.Ws.Handler.{
  Event, tick, shutting_down, proxy_done, client_done, provider_done, on_event,
}
use haprovider.Ws.Proxy.{Proxy, connected}
use haprovider.Ws.Proxy.Steps.{
  by_itself, ClientStep, ProviderStep, WatcherStep, Occurs, Step, by_client, by_provider,
  by_watcher, client_breaks, provider_breaks, Reach, here, next,
}
use haprovider.Ws.Proxy.Ending.{Shuts, IsSound}

closes_none :
    (acts : List Act)
    → will is_close acts ≡ false
    → (will closes_client acts ≡ false) × (will closes_provider acts ≡ false)
closes_none [] h = (refl, refl)
closes_none (a ∷ acts) h = ground (arith, closes_none acts)

-- Every event that ends the handler's loop has it close what is not closed yet.
on_event-Shuts :
    (on_primary : Bool) (s : Proxy) (e : Event) (acts : List Act)
    → on_event on_primary e ≡ some acts
    → Occurs s e
    → (s.done ≡ true) ⊎ Shuts s acts
unfolding on_event
on_event-Shuts on_primary s (tick primary now) acts h o = ground arith
on_event-Shuts on_primary s shutting_down acts h o = ground arith
on_event-Shuts on_primary s proxy_done acts h o = inl o
on_event-Shuts on_primary s (client_done cause) acts h o = ground arith
on_event-Shuts on_primary s (provider_done cause) acts h o = ground arith

module _ (json : Json) (chain : Option Chain) where
  ClientStep-IsSound : {s t : Proxy} → ClientStep json chain s t → IsSound s → IsSound t
  ClientStep-IsSound (ClientStep.stops e h) v = ground arith
  ClientStep-IsSound (ClientStep.hears m a e h) v =
      let shape = client_message-IsShaped json chain _ _ m a h in
      ground (arith, shape.both, shape.requests)
  ClientStep-IsSound (ClientStep.hands_over r more goes_on e room) v = ground arith
  ClientStep-IsSound (ClientStep.gives_up r more goes_on e h) v = ground (arith, closes_none more)
  ClientStep-IsSound (ClientStep.answers res more goes_on e) v = ground arith
  ClientStep-IsSound (ClientStep.answer_dropped res more goes_on e h) v = ground arith
  ClientStep-IsSound (ClientStep.closes a more goes_on e h) v = ground arith
  ClientStep-IsSound (ClientStep.finishes goes_on e) v = ground arith
  ClientStep-IsSound (ClientStep.takes_first res rest e first) v = ground arith
  ClientStep-IsSound (ClientStep.takes_next n res rest e first) v = ground arith
  ClientStep-IsSound (ClientStep.writes res left e) v = ground arith
  ClientStep-IsSound (ClientStep.write_dropped res left e h) v = ground arith
  ClientStep-IsSound (ClientStep.flushed e) v = ground arith

  ProviderStep-IsSound : {s t : Proxy} → ProviderStep json chain s t → IsSound s → IsSound t
  ProviderStep-IsSound (ProviderStep.stops e h) v = ground arith
  ProviderStep-IsSound (ProviderStep.hears m now h e k) v =
      let shape = provider_message-IsShaped json chain true _ m now h k in
      ground (arith, shape.shaped.both)
  ProviderStep-IsSound (ProviderStep.hands_over res more goes_on e room) v = ground arith
  ProviderStep-IsSound (ProviderStep.gives_up res more goes_on e h) v = ground arith
  ProviderStep-IsSound (ProviderStep.closes a more goes_on e h) v = ground arith
  ProviderStep-IsSound (ProviderStep.finishes goes_on e) v = ground arith
  ProviderStep-IsSound (ProviderStep.takes_first r rest e first) v = ground arith
  ProviderStep-IsSound (ProviderStep.takes_next n r rest e first) v = ground arith
  ProviderStep-IsSound (ProviderStep.writes r left e) v = ground arith
  ProviderStep-IsSound (ProviderStep.write_dropped r left e h) v = ground arith
  ProviderStep-IsSound (ProviderStep.flushed e) v = ground arith

  WatcherStep-IsSound :
      {on_primary : Bool} {s t : Proxy} → WatcherStep on_primary s t → IsSound s → IsSound t
  WatcherStep-IsSound {on_primary} {s} (WatcherStep.woken ev acts e h k) v =
      ground (arith, on_event-Shuts on_primary s ev acts k h)
  WatcherStep-IsSound (WatcherStep.closes a more e) v = ground arith
  WatcherStep-IsSound (WatcherStep.returns e) v = ground arith

  pub Step-IsSound :
      {on_primary : Bool} {s t : Proxy} → Step json chain on_primary s t → IsSound s → IsSound t
  Step-IsSound (by_itself (by_client c)) v = ClientStep-IsSound c v
  Step-IsSound (by_itself (by_provider p)) v = ProviderStep-IsSound p v
  Step-IsSound (by_itself (by_watcher w)) v = WatcherStep-IsSound w v
  Step-IsSound client_breaks v = ground arith
  Step-IsSound provider_breaks v = ground arith

  -- In every reachable state, if the proxy has been closed then each of its connections is closed,
  -- or one of the three goroutines is on its way to close it; the handler returns only with the
  -- proxy closed, and pumpProvider never puts a request on a channel.
  pub Reach-IsSound :
      {on_primary : Bool} (link : Link) {s : Proxy}
      → Reach json chain on_primary (connected link) s
      → IsSound s
  Reach-IsSound link here = ground arith
  Reach-IsSound link (next r step) = Step-IsSound step (Reach-IsSound link r)
