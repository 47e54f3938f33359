-- ===== src/Ws/Proxy/Ending/Rests.antt =====
-- Each goroutine of a proxy gets through what it is doing once the proxy is closed
-- (internal/ws/ws.go).
use haprovider.Prelude.{
  ℕ, zero, suc, ◌≡◌, ◌≤◌, ◌⊎◌, inl, inr, refl, ◌∙◌, Bool, true, false, List, [], ◌∷◌, Option, none,
  some, length, arith,
}
use haprovider.Rpc.Message.{Response}
use haprovider.Rpc.Json.{Json}
use haprovider.Chain.{Chain}
use haprovider.Ws.Pump.{Act, to_provider, to_client, close_proxy, close_client, close_provider}
use haprovider.Ws.Proxy.{ClientPump, Proxy}
use haprovider.Ws.Proxy.Steps.{ClientStep, OwnStep, by_client, Run, start, later}
use haprovider.Ws.Proxy.Order.{responses_left}

module _ (json : Json) (chain : Option Chain) (on_primary : Bool) where
  pub before :
      {s t u : Proxy}
      → OwnStep json chain on_primary s t
      → Run json chain on_primary t u
      → Run json chain on_primary s u
  before s start = later start s
  before s (later r t) = later (before s r) t

  -- A run after which pumpClient is at its select or has returned, and the others are where they were
  pub record ClientRests (s : Proxy) : Type 0 where
    pub state : Proxy
    pub run : Run json chain on_primary s state
    pub at_rest :
        (state.client_pump ≡ ClientPump.listens) ⊎ (state.client_pump ≡ ClientPump.returned)
    pub provider : state.provider_pump ≡ s.provider_pump
    pub watcher : state.watcher ≡ s.watcher
    pub done : state.done ≡ true

  -- After a step of pumpClient that leaves the others alone
  client_next :
      {s t : Proxy}
      → ClientStep json chain s t
      → t.provider_pump ≡ s.provider_pump
      → t.watcher ≡ s.watcher
      → ClientRests t
      → ClientRests s
  client_next step p w r = record {
    state = r.state;
    run = before (by_client step) r.run;
    at_rest = r.at_rest;
    provider = r.provider ∙ p;
    watcher = r.watcher ∙ w;
    done = r.done;
  }

  client_done_with :
      (s : Proxy)
      → (s.client_pump ≡ ClientPump.listens) ⊎ (s.client_pump ≡ ClientPump.returned)
      → s.done ≡ true
      → ClientRests s
  client_done_with s rest d = record {
    state = s;
    run = start;
    at_rest = rest;
    provider = refl;
    watcher = refl;
    done = d;
  }

  client_acts :
      (acts : List Act) (g : Bool) (s : Proxy)
      → s.client_pump ≡ ClientPump.acting acts g
      → s.done ≡ true
      → ClientRests s
  client_acts [] true s e d =
      client_next (ClientStep.finishes true e) refl refl (client_done_with _ (inl refl) d)
  client_acts [] false s e d =
      client_next (ClientStep.finishes false e) refl refl (client_done_with _ (inr refl) d)
  client_acts (to_provider r ∷ more) g s e d =
      client_next (ClientStep.gives_up r more g e (inl d)) refl refl
        (client_done_with _ (inr refl) d)
  client_acts (to_client res ∷ more) g s e d =
      client_next (ClientStep.answers res more g e) refl refl (client_acts more g _ refl d)
  client_acts (close_proxy x ∷ more) g s e d =
      client_next (ClientStep.closes (close_proxy x) more g e refl) refl refl
        (client_acts more g _ refl refl)
  client_acts (close_client code x ∷ more) g s e d =
      client_next (ClientStep.closes (close_client code x) more g e refl) refl refl
        (client_acts more g _ refl d)
  client_acts (close_provider code x ∷ more) g s e d =
      client_next (ClientStep.closes (close_provider code x) more g e refl) refl refl
        (client_acts more g _ refl d)

  client_flushes :
      (n : ℕ) (queue : List Response) (s : Proxy)
      → s.client_pump ≡ ClientPump.flushes n
      → s.responses ≡ queue
      → n ≤ length queue
      → s.done ≡ true
      → ClientRests s
  client_flushes zero queue s e f fits d =
      client_next (ClientStep.flushed e) refl refl (client_done_with _ (inl refl) d)
  client_flushes (suc n) [] s e f fits d = absurd (omega arith)
  client_flushes (suc n) (res ∷ rest) s e f fits d =
      client_next (ClientStep.takes_next n res rest e f) refl refl (
        client_next (ClientStep.writes res (some n) refl) refl refl
          (client_flushes n rest _ refl refl (omega arith) d))

  -- pumpClient gets back to its select, or returns.
  pub client_rests :
      (s : Proxy) (p : ClientPump)
      → s.client_pump ≡ p
      → s.done ≡ true
      → responses_left p ≤ length s.responses
      → ClientRests s
  client_rests s ClientPump.listens e d fits = client_done_with s (inl e) d
  client_rests s (ClientPump.acting acts g) e d fits = client_acts acts g s e d
  client_rests s (ClientPump.relays res none) e d fits =
      client_next (ClientStep.writes res none e) refl refl
        (client_flushes (length s.responses) s.responses _ refl refl (omega arith) d)
  client_rests s (ClientPump.relays res (some n)) e d fits =
      client_next (ClientStep.writes res (some n) e) refl refl
        (client_flushes n s.responses _ refl refl fits d)
  client_rests s (ClientPump.flushes n) e d fits = client_flushes n s.responses s e refl fits d
  client_rests s ClientPump.returned e d fits = client_done_with s (inr e) d
