-- ===== src/Ws/Proxy/Ending.antt =====
-- How a WebSocketProxy is closed (internal/ws/ws.go): whoever closes the proxy closes both of its
-- connections, too.
pub mod Kept
pub mod Rests
pub mod Others
pub mod Returned
use haprovider.Prelude.{ℕ, ◌≡◌, ◌⊎◌, inl, inr, Bool, true, false, ◌||◌, List, [], ◌∷◌, arith}
use haprovider.Ws.Pump.{Act}
use haprovider.Ws.Pump.Acts.{
  closes_proxy, closes_client, closes_provider, is_close, is_request, will,
}
use haprovider.Ws.Proxy.{ClientPump, ProviderPump, Watcher, waits, closing, Proxy}

-- What the goroutines have left to do
abbrev pub client_acts : ClientPump → List Act
client_acts (ClientPump.acting acts g) = acts
client_acts _ = []

abbrev pub provider_acts : ProviderPump → List Act
provider_acts (ProviderPump.acting acts g) = acts
provider_acts _ = []

abbrev pub watcher_acts : Watcher → List Act
watcher_acts (closing acts) = acts
watcher_acts _ = []

abbrev pub has_returned : Watcher → Bool
has_returned Watcher.returned = true
has_returned _ = false

abbrev pub is_closing : Watcher → Bool
is_closing (closing acts) = true
is_closing _ = false

-- With these acts done, both connections are closed.
pub record Shuts (s : Proxy) (acts : List Act) : Type 0 where
  pub client : (s.client_done || will closes_client acts) ≡ true
  pub provider : (s.provider_done || will closes_provider acts) ≡ true

-- A connection is closed, or one of the goroutines is about to close it.
abbrev pub Closing : Bool → (Act → Bool) → Proxy → Type 0
Closing is_done test s =
    (is_done
      || (will test (client_acts s.client_pump)
          || (will test (provider_acts s.provider_pump) || will test (watcher_acts s.watcher))))
    ≡ true

pub record IsSound (s : Proxy) : Type 0 where
  pub no_requests : will is_request (provider_acts s.provider_pump) ≡ false
  pub only_requests :
      will is_request (client_acts s.client_pump) ≡ true
      → will is_close (client_acts s.client_pump) ≡ false
  pub client_shuts :
      will closes_proxy (client_acts s.client_pump) ≡ true → Shuts s (client_acts s.client_pump)
  pub provider_shuts :
      will closes_proxy (provider_acts s.provider_pump) ≡ true
      → Shuts s (provider_acts s.provider_pump)
  pub watcher_shuts :
      is_closing s.watcher ≡ true → (s.done ≡ true) ⊎ Shuts s (watcher_acts s.watcher)
  pub watcher_done : has_returned s.watcher ≡ true → s.done ≡ true
  pub done_shuts :
      s.done ≡ true
      → Closing s.client_done closes_client s × Closing s.provider_done closes_provider s
