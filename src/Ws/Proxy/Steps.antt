-- ===== src/Ws/Proxy/Steps.antt =====
-- The steps of the goroutines of a WebSocketProxy (internal/ws/ws.go).
use haprovider.Prelude.{
  ℕ, suc, zero, ◌≡◌, ◌<◌, ◌⊎◌, Bool, true, false, List, [], ◌∷◌, ◌++◌, Option, none, some, length,
  if◌then◌else◌, Text,
}
use haprovider.Prelude.Outcome.{done}
use haprovider.Rpc.Message.{Request, Response}
use haprovider.Rpc.Json.{Json}
use haprovider.Rpc.Batch.{max_batch_size, serialize_request, serialize_response}
use haprovider.Chain.{Chain}
use haprovider.Ws.Pump.{
  Act, to_provider, to_client, Heard, Asked, provider_message, client_message, request_sent,
}
use haprovider.Ws.Handler.{
  Event, tick, shutting_down, proxy_done, client_done, provider_done, on_event,
}
use haprovider.Ws.Pump.Acts.{is_close}
use haprovider.Ws.Proxy.{
  channel_size, ClientPump, ProviderPump, Watcher, waits, closing, own, relayed, Proxy, close,
  written, counted,
}

-- What ends the wait of sendRequest, and of sendResponse
abbrev pub RequestGivenUp : Proxy → Type 0
RequestGivenUp s = (s.done ≡ true) ⊎ (s.client_done ≡ true) ⊎ (s.provider_done ≡ true)

abbrev pub ResponseGivenUp : Proxy → Type 0
ResponseGivenUp s = (s.done ≡ true) ⊎ (s.provider_done ≡ true)

module _ (json : Json) (chain : Option Chain) where
  -- pumpClient with sendRequest and writeResponse
  pub data ClientStep (s : Proxy) : Proxy → Type 0 where
    stops :
        s.client_pump ≡ ClientPump.listens
        → s.client_done ≡ true
        → ClientStep s (record s { client_pump = ClientPump.returned })
    hears :
        (message : Text) (a : Asked)
        → s.client_pump ≡ ClientPump.listens
        → client_message json chain max_batch_size s.bad_requests message ≡ done a
        → ClientStep s (record s {
          client_pump = ClientPump.acting a.acts a.goes_on;
          bad_requests = a.bad_requests;
        })
    hands_over :
        (r : Request) (more : List Act) (goes_on : Bool)
        → s.client_pump ≡ ClientPump.acting (to_provider r ∷ more) goes_on
        → length s.requests < channel_size
        → ClientStep s (record s {
          client_pump = ClientPump.acting more goes_on;
          requests = s.requests ++ r ∷ [];
          asked = s.asked ++ r ∷ [];
        })
    gives_up :
        (r : Request) (more : List Act) (goes_on : Bool)
        → s.client_pump ≡ ClientPump.acting (to_provider r ∷ more) goes_on
        → RequestGivenUp s
        → ClientStep s (record s { client_pump = ClientPump.returned })
    answers :
        (res : Response) (more : List Act) (goes_on : Bool)
        → s.client_pump ≡ ClientPump.acting (to_client res ∷ more) goes_on
        → ClientStep s (record s {
          client_pump = ClientPump.acting more goes_on;
          downstream = written own (serialize_response json res) s.downstream;
        })
    answer_dropped :
        (res : Response) (more : List Act) (goes_on : Bool)
        → s.client_pump ≡ ClientPump.acting (to_client res ∷ more) goes_on
        → s.client_done ≡ true
        → ClientStep s (record s { client_pump = ClientPump.acting more goes_on })
    closes :
        (a : Act) (more : List Act) (goes_on : Bool)
        → s.client_pump ≡ ClientPump.acting (a ∷ more) goes_on
        → is_close a ≡ true
        → ClientStep s (record (close a s) { client_pump = ClientPump.acting more goes_on })
    finishes :
        (goes_on : Bool)
        → s.client_pump ≡ ClientPump.acting [] goes_on
        → ClientStep s
            (record s { client_pump = if goes_on then ClientPump.listens else ClientPump.returned })
    takes_first :
        (res : Response) (rest : List Response)
        → s.client_pump ≡ ClientPump.listens
        → s.responses ≡ res ∷ rest
        → ClientStep s (record s { client_pump = ClientPump.relays res none; responses = rest })
    takes_next :
        (n : ℕ) (res : Response) (rest : List Response)
        → s.client_pump ≡ ClientPump.flushes (suc n)
        → s.responses ≡ res ∷ rest
        → ClientStep s (record s { client_pump = ClientPump.relays res (some n); responses = rest })
    writes :
        (res : Response) (left : Option ℕ)
        → s.client_pump ≡ ClientPump.relays res left
        → ClientStep s (record s {
          client_pump = ClientPump.flushes (counted left s.responses);
          downstream = written relayed (serialize_response json res) s.downstream;
          passed = s.passed ++ res ∷ [];
        })
    write_dropped :
        (res : Response) (left : Option ℕ)
        → s.client_pump ≡ ClientPump.relays res left
        → s.client_done ≡ true
        → ClientStep s (record s {
          client_pump = ClientPump.flushes (counted left s.responses);
          passed = s.passed ++ res ∷ [];
        })
    flushed :
        s.client_pump ≡ ClientPump.flushes zero
        → ClientStep s (record s { client_pump = ClientPump.listens })

  -- pumpProvider with sendResponse, writeRequest and trackPending
  pub data ProviderStep (s : Proxy) : Proxy → Type 0 where
    stops :
        s.provider_pump ≡ ProviderPump.listens
        → s.provider_done ≡ true
        → ProviderStep s (record s { provider_pump = ProviderPump.returned })
    hears :
        (message : Text) (now : ℕ) (h : Heard)
        → s.provider_pump ≡ ProviderPump.listens
        → provider_message json chain true true s.link message now ≡ done h
        → ProviderStep s
            (record s { provider_pump = ProviderPump.acting h.acts h.goes_on; link = h.link })
    hands_over :
        (res : Response) (more : List Act) (goes_on : Bool)
        → s.provider_pump ≡ ProviderPump.acting (to_client res ∷ more) goes_on
        → length s.responses < channel_size
        → ProviderStep s (record s {
          provider_pump = ProviderPump.acting more goes_on;
          responses = s.responses ++ res ∷ [];
          answered = s.answered ++ res ∷ [];
        })
    gives_up :
        (res : Response) (more : List Act) (goes_on : Bool)
        → s.provider_pump ≡ ProviderPump.acting (to_client res ∷ more) goes_on
        → ResponseGivenUp s
        → ProviderStep s (record s { provider_pump = ProviderPump.acting more false })
    closes :
        (a : Act) (more : List Act) (goes_on : Bool)
        → s.provider_pump ≡ ProviderPump.acting (a ∷ more) goes_on
        → is_close a ≡ true
        → ProviderStep s (record (close a s) { provider_pump = ProviderPump.acting more goes_on })
    finishes :
        (goes_on : Bool)
        → s.provider_pump ≡ ProviderPump.acting [] goes_on
        → ProviderStep s (record s {
          provider_pump = if goes_on then ProviderPump.listens else ProviderPump.returned;
        })
    takes_first :
        (r : Request) (rest : List Request)
        → s.provider_pump ≡ ProviderPump.listens
        → s.requests ≡ r ∷ rest
        → ProviderStep s (record s {
          provider_pump = ProviderPump.forwards r none;
          requests = rest;
          link = request_sent json s.link r;
        })
    takes_next :
        (n : ℕ) (r : Request) (rest : List Request)
        → s.provider_pump ≡ ProviderPump.flushes (suc n)
        → s.requests ≡ r ∷ rest
        → ProviderStep s (record s {
          provider_pump = ProviderPump.forwards r (some n);
          requests = rest;
          link = request_sent json s.link r;
        })
    writes :
        (r : Request) (left : Option ℕ)
        → s.provider_pump ≡ ProviderPump.forwards r left
        → ProviderStep s (record s {
          provider_pump = ProviderPump.flushes (counted left s.requests);
          upstream = written (λ text. text) (serialize_request json r) s.upstream;
          sent = s.sent ++ r ∷ [];
        })
    write_dropped :
        (r : Request) (left : Option ℕ)
        → s.provider_pump ≡ ProviderPump.forwards r left
        → s.provider_done ≡ true
        → ProviderStep s (record s {
          provider_pump = ProviderPump.flushes (counted left s.requests);
          sent = s.sent ++ r ∷ [];
        })
    flushed :
        s.provider_pump ≡ ProviderPump.flushes zero
        → ProviderStep s (record s { provider_pump = ProviderPump.listens })

-- When an event can wake the handler
abbrev pub Occurs : Proxy → Event → Type 0
Occurs s (tick primary now) = Unit
Occurs s shutting_down = Unit
Occurs s proxy_done = s.done ≡ true
Occurs s (client_done cause) = s.client_done ≡ true
Occurs s (provider_done cause) = s.provider_done ≡ true

-- The loop of the handler, and the deferred cancel behind it
pub data WatcherStep (on_primary : Bool) (s : Proxy) : Proxy → Type 0 where
  woken :
      (e : Event) (acts : List Act)
      → s.watcher ≡ waits
      → Occurs s e
      → on_event on_primary e ≡ some acts
      → WatcherStep on_primary s (record s { watcher = closing acts })
  closes :
      (a : Act) (more : List Act)
      → s.watcher ≡ closing (a ∷ more)
      → WatcherStep on_primary s (record (close a s) { watcher = closing more })
  returns :
      s.watcher ≡ closing []
      → WatcherStep on_primary s (record s { watcher = Watcher.returned; done = true })

module _ (json : Json) (chain : Option Chain) (on_primary : Bool) where
  -- Any of them
  pub data OwnStep (s : Proxy) : Proxy → Type 0 where
    by_client : {t : Proxy} → ClientStep json chain s t → OwnStep s t
    by_provider : {t : Proxy} → ProviderStep json chain s t → OwnStep s t
    by_watcher : {t : Proxy} → WatcherStep on_primary s t → OwnStep s t

  -- A step of the proxy, or a connection that breaks
  pub data Step (s : Proxy) : Proxy → Type 0 where
    by_itself : {t : Proxy} → OwnStep s t → Step s t
    client_breaks : Step s (record s { client_done = true })
    provider_breaks : Step s (record s { provider_done = true })

  pub data Reach (s : Proxy) : Proxy → Type 0 where
    here : Reach s s
    next : {t u : Proxy} → Reach s t → Step t u → Reach s u

  -- A run in which no connection breaks
  pub data Run (s : Proxy) : Proxy → Type 0 where
    start : Run s s
    later : {t u : Proxy} → Run s t → OwnStep t u → Run s u
