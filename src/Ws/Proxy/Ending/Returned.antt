-- ===== src/Ws/Proxy/Ending/Returned.antt =====
-- No goroutine of a proxy is left behind (internal/ws/ws.go).
use haprovider.Prelude.{
  ◌≡◌, ◌⊎◌, inl, inr, refl, ap, ◌∙◌, Bool, true, List, [], Option, some, arith,
}
use haprovider.Rpc.Json.{Json}
use haprovider.Chain.{Chain}
use haprovider.Ws.Pump.{Act, Link}
use haprovider.Ws.Handler.{Event, on_event}
use haprovider.Ws.Proxy.{ClientPump, ProviderPump, Watcher, waits, closing, Proxy, connected}
use haprovider.Ws.Proxy.Steps.{
  ClientStep, ProviderStep, WatcherStep, Occurs, by_client, by_provider, by_itself, Reach, Run,
  start, later,
}
use haprovider.Ws.Proxy.Order.{IsInOrder}
use haprovider.Ws.Proxy.Order.Kept.{Step-IsInOrder, Reach-IsInOrder}
use haprovider.Ws.Proxy.Ending.{client_acts, provider_acts, watcher_acts, has_returned, IsSound}
use haprovider.Ws.Proxy.Ending.Kept.{Step-IsSound, Reach-IsSound}
use haprovider.Ws.Proxy.Ending.Rests.{client_rests}
use haprovider.Ws.Proxy.Ending.Others.{provider_rests, WatcherRests, watcher_next, watcher_closes}

module _ (json : Json) (chain : Option Chain) (on_primary : Bool) where
  join :
      {s t u : Proxy}
      → Run json chain on_primary s t
      → Run json chain on_primary t u
      → Run json chain on_primary s u
  join r start = r
  join r (later q step) = later (join r q) step

  Run-IsInOrder :
      {s t : Proxy} → Run json chain on_primary s t → IsInOrder json s → IsInOrder json t
  Run-IsInOrder start v = v
  Run-IsInOrder (later r step) v = Step-IsInOrder json chain (by_itself step) (Run-IsInOrder r v)

  Run-IsSound : {s t : Proxy} → Run json chain on_primary s t → IsSound s → IsSound t
  Run-IsSound start v = v
  Run-IsSound (later r step) v = Step-IsSound json chain (by_itself step) (Run-IsSound r v)

  watcher_rests :
      (s : Proxy) (w : Watcher) (e : Event) (acts : List Act)
      → s.watcher ≡ w
      → Occurs s e
      → on_event on_primary e ≡ some acts
      → IsSound s
      → WatcherRests json chain on_primary s
  watcher_rests s waits e acts at occurs ends v =
      watcher_next json chain on_primary (WatcherStep.woken e acts at occurs ends) refl refl
        (watcher_closes json chain on_primary acts _ refl)
  watcher_rests s (closing left) e acts at occurs ends v =
      watcher_closes json chain on_primary left s at
  watcher_rests s Watcher.returned e acts at occurs ends v = record {
    state = s;
    run = start;
    client = refl;
    provider = refl;
    watcher = at;
    done = v.watcher_done (ap has_returned at);
  }

  -- A run, without a connection that breaks, after which all three goroutines have returned
  pub record Returns (s : Proxy) : Type 0 where
    pub state : Proxy
    pub run : Run json chain on_primary s state
    pub client : state.client_pump ≡ ClientPump.returned
    pub provider : state.provider_pump ≡ ProviderPump.returned
    pub watcher : state.watcher ≡ Watcher.returned

  provider_stops :
      (s : Proxy)
      → s.client_pump ≡ ClientPump.returned
      → (s.provider_pump ≡ ProviderPump.listens) ⊎ (s.provider_pump ≡ ProviderPump.returned)
      → s.watcher ≡ Watcher.returned
      → s.provider_done ≡ true
      → Returns s
  provider_stops s c (inl p) w d = record {
    state = record s { provider_pump = ProviderPump.returned };
    run = later start (by_provider (ProviderStep.stops p d));
    client = c;
    provider = refl;
    watcher = w;
  }
  provider_stops s c (inr p) w d = record {
    state = s;
    run = start;
    client = c;
    provider = p;
    watcher = w;
  }

  after : {s t : Proxy} → Run json chain on_primary s t → Returns t → Returns s
  after r q = record {
    state = q.state;
    run = join r q.run;
    client = q.client;
    provider = q.provider;
    watcher = q.watcher;
  }

  both_stop :
      (s : Proxy)
      → (s.client_pump ≡ ClientPump.listens) ⊎ (s.client_pump ≡ ClientPump.returned)
      → (s.provider_pump ≡ ProviderPump.listens) ⊎ (s.provider_pump ≡ ProviderPump.returned)
      → s.watcher ≡ Watcher.returned
      → (s.client_done ≡ true) × (s.provider_done ≡ true)
      → Returns s
  both_stop s (inl c) p w (cd, pd) =
      after (later start (by_client (ClientStep.stops c cd))) (provider_stops _ refl p w pd)
  both_stop s (inr c) p w (cd, pd) = provider_stops s c p w pd

  same_rest :
      (a b : ClientPump)
      → b ≡ a
      → (a ≡ ClientPump.listens) ⊎ (a ≡ ClientPump.returned)
      → (b ≡ ClientPump.listens) ⊎ (b ≡ ClientPump.returned)
  same_rest a b e (inl h) = inl (e ∙ h)
  same_rest a b e (inr h) = inr (e ∙ h)

  no_client_acts :
      (s : Proxy)
      → (s.client_pump ≡ ClientPump.listens) ⊎ (s.client_pump ≡ ClientPump.returned)
      → client_acts s.client_pump ≡ []
  no_client_acts s (inl c) = ap client_acts c
  no_client_acts s (inr c) = ap client_acts c

  no_provider_acts :
      (s : Proxy)
      → (s.provider_pump ≡ ProviderPump.listens) ⊎ (s.provider_pump ≡ ProviderPump.returned)
      → provider_acts s.provider_pump ≡ []
  no_provider_acts s (inl p) = ap provider_acts p
  no_provider_acts s (inr p) = ap provider_acts p

  -- With nothing left to do, the connections of a closed proxy are closed.
  both_closed :
      (s : Proxy)
      → client_acts s.client_pump ≡ []
      → provider_acts s.provider_pump ≡ []
      → watcher_acts s.watcher ≡ []
      → s.done ≡ true
      → IsSound s
      → (s.client_done ≡ true) × (s.provider_done ≡ true)
  both_closed s c p w d v = ground (arith, v.done_shuts d)

  -- In every reachable state where an event has occurred that ends the handler's loop (a shutdown,
  -- the end of the proxy or of one of its connections, or the first provider back), the goroutines
  -- can go on so that all three return: none of them is left behind, wherever it stands.
  pub Reach-Returns :
      (link : Link) (s : Proxy) (e : Event) (acts : List Act)
      → Reach json chain on_primary (connected link) s
      → Occurs s e
      → on_event on_primary e ≡ some acts
      → Returns s
  Reach-Returns link s e acts run occurs ends =
      let sound = Reach-IsSound json chain link run in
      let order = Reach-IsInOrder json chain link run in
      let w = watcher_rests s s.watcher e acts refl occurs ends sound in
      let c =
        client_rests json chain on_primary w.state w.state.client_pump refl w.done
          (Run-IsInOrder w.run order).down.possible in
      let to_c = join w.run c.run in
      let p =
        provider_rests json chain on_primary c.state c.state.provider_pump refl c.done
          (Run-IsInOrder to_c order).up.possible (Run-IsSound to_c sound).no_requests in
      let to_p = join to_c p.run in
      let watcher = p.watcher ∙ (c.watcher ∙ w.watcher) in
      let resting = same_rest c.state.client_pump p.state.client_pump p.client c.at_rest in
      after to_p (
        both_stop p.state resting p.at_rest watcher (
          both_closed p.state (no_client_acts p.state resting) (no_provider_acts p.state p.at_rest)
            (ap watcher_acts watcher) p.done (Run-IsSound to_p sound)))
