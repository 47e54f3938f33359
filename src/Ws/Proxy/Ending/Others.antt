-- ===== src/Ws/Proxy/Ending/Others.antt =====
-- pumpProvider and the handler get through what they are doing once the proxy is closed
-- (internal/ws/ws.go).
use haprovider.Prelude.{
  ℕ, zero, suc, ◌≡◌, ◌≤◌, ◌⊎◌, inl, inr, refl, ◌∙◌, Bool, true, false, List, [], ◌∷◌, Option, none,
  some, length, arith,
}
use haprovider.Rpc.Message.{Request}
use haprovider.Rpc.Json.{Json}
use haprovider.Chain.{Chain}
use haprovider.Ws.Pump.{Act, to_provider, to_client, close_proxy, close_client, close_provider}
use haprovider.Ws.Pump.Acts.{is_request, will}
use haprovider.Ws.Proxy.{ProviderPump, Watcher, closing, Proxy}
use haprovider.Ws.Proxy.Steps.{ProviderStep, WatcherStep, by_provider, by_watcher, Run, start}
use haprovider.Ws.Proxy.Order.{requests_left}
use haprovider.Ws.Proxy.Ending.{provider_acts}
use haprovider.Ws.Proxy.Ending.Rests.{before}

module _ (json : Json) (chain : Option Chain) (on_primary : Bool) where
  -- A run after which pumpProvider is at its select or has returned, and the others are where they were
  pub record ProviderRests (s : Proxy) : Type 0 where
    pub state : Proxy
    pub run : Run json chain on_primary s state
    pub at_rest :
        (state.provider_pump ≡ ProviderPump.listens) ⊎ (state.provider_pump ≡ ProviderPump.returned)
    pub client : state.client_pump ≡ s.client_pump
    pub watcher : state.watcher ≡ s.watcher
    pub done : state.done ≡ true

  -- After a step of pumpProvider that leaves the others alone
  provider_next :
      {s t : Proxy}
      → ProviderStep json chain s t
      → t.client_pump ≡ s.client_pump
      → t.watcher ≡ s.watcher
      → ProviderRests t
      → ProviderRests s
  provider_next step p w r = record {
    state = r.state;
    run = before json chain on_primary (by_provider step) r.run;
    at_rest = r.at_rest;
    client = r.client ∙ p;
    watcher = r.watcher ∙ w;
    done = r.done;
  }

  provider_done_with :
      (s : Proxy)
      → (s.provider_pump ≡ ProviderPump.listens) ⊎ (s.provider_pump ≡ ProviderPump.returned)
      → s.done ≡ true
      → ProviderRests s
  provider_done_with s rest d = record {
    state = s;
    run = start;
    at_rest = rest;
    client = refl;
    watcher = refl;
    done = d;
  }

  provider_acts_done :
      (acts : List Act) (g : Bool) (s : Proxy)
      → s.provider_pump ≡ ProviderPump.acting acts g
      → s.done ≡ true
      → will is_request acts ≡ false
      → ProviderRests s
  provider_acts_done [] true s e d asks =
      provider_next (ProviderStep.finishes true e) refl refl (provider_done_with _ (inl refl) d)
  provider_acts_done [] false s e d asks =
      provider_next (ProviderStep.finishes false e) refl refl (provider_done_with _ (inr refl) d)
  provider_acts_done (to_provider r ∷ more) g s e d asks = cc
  provider_acts_done (to_client res ∷ more) g s e d asks =
      provider_next (ProviderStep.gives_up res more g e (inl d)) refl refl
        (provider_acts_done more false _ refl d asks)
  provider_acts_done (close_proxy x ∷ more) g s e d asks =
      provider_next (ProviderStep.closes (close_proxy x) more g e refl) refl refl
        (provider_acts_done more g _ refl refl asks)
  provider_acts_done (close_client code x ∷ more) g s e d asks =
      provider_next (ProviderStep.closes (close_client code x) more g e refl) refl refl
        (provider_acts_done more g _ refl d asks)
  provider_acts_done (close_provider code x ∷ more) g s e d asks =
      provider_next (ProviderStep.closes (close_provider code x) more g e refl) refl refl
        (provider_acts_done more g _ refl d asks)

  provider_flushes :
      (n : ℕ) (queue : List Request) (s : Proxy)
      → s.provider_pump ≡ ProviderPump.flushes n
      → s.requests ≡ queue
      → n ≤ length queue
      → s.done ≡ true
      → ProviderRests s
  provider_flushes zero queue s e f fits d =
      provider_next (ProviderStep.flushed e) refl refl (provider_done_with _ (inl refl) d)
  provider_flushes (suc n) [] s e f fits d = absurd (omega arith)
  provider_flushes (suc n) (r ∷ rest) s e f fits d =
      provider_next (ProviderStep.takes_next n r rest e f) refl refl (
        provider_next (ProviderStep.writes r (some n) refl) refl refl
          (provider_flushes n rest _ refl refl (omega arith) d))

  -- pumpProvider gets back to its select, or returns.
  pub provider_rests :
      (s : Proxy) (p : ProviderPump)
      → s.provider_pump ≡ p
      → s.done ≡ true
      → requests_left p ≤ length s.requests
      → will is_request (provider_acts p) ≡ false
      → ProviderRests s
  provider_rests s ProviderPump.listens e d fits asks = provider_done_with s (inl e) d
  provider_rests s (ProviderPump.acting acts g) e d fits asks = provider_acts_done acts g s e d asks
  provider_rests s (ProviderPump.forwards r none) e d fits asks =
      provider_next (ProviderStep.writes r none e) refl refl
        (provider_flushes (length s.requests) s.requests _ refl refl (omega arith) d)
  provider_rests s (ProviderPump.forwards r (some n)) e d fits asks =
      provider_next (ProviderStep.writes r (some n) e) refl refl
        (provider_flushes n s.requests _ refl refl fits d)
  provider_rests s (ProviderPump.flushes n) e d fits asks =
      provider_flushes n s.requests s e refl fits d
  provider_rests s ProviderPump.returned e d fits asks = provider_done_with s (inr e) d

  -- A run after which the handler has returned, and the pumps are where they were
  pub record WatcherRests (s : Proxy) : Type 0 where
    pub state : Proxy
    pub run : Run json chain on_primary s state
    pub client : state.client_pump ≡ s.client_pump
    pub provider : state.provider_pump ≡ s.provider_pump
    pub watcher : state.watcher ≡ Watcher.returned
    pub done : state.done ≡ true

  pub watcher_next :
      {s t : Proxy}
      → WatcherStep on_primary s t
      → t.client_pump ≡ s.client_pump
      → t.provider_pump ≡ s.provider_pump
      → WatcherRests t
      → WatcherRests s
  watcher_next step c p r = record {
    state = r.state;
    run = before json chain on_primary (by_watcher step) r.run;
    client = r.client ∙ c;
    provider = r.provider ∙ p;
    watcher = r.watcher;
    done = r.done;
  }

  pub watcher_closes : (acts : List Act) (s : Proxy) → s.watcher ≡ closing acts → WatcherRests s
  watcher_closes [] s e = watcher_next (WatcherStep.returns e) refl refl (record {
    state = _;
    run = start;
    client = refl;
    provider = refl;
    watcher = refl;
    done = refl;
  })
  watcher_closes (a ∷ acts) s e =
      watcher_next (WatcherStep.closes a acts e) refl refl (watcher_closes acts _ refl)
