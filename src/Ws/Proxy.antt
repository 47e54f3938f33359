-- ===== src/Ws/Proxy.antt =====
-- A WebSocketProxy of internal/ws/ws.go with its three goroutines, from the upgrade of the client on:
-- pumpClient, pumpProvider and the loop at the end of IncomingWebsocketHandler. A step is what one of
-- them does between two points where another may run. What a pump decides about a message is taken
-- from Ws/Pump, with a call of sendRequest or sendResponse for each of its acts. Close is one step,
-- with the context done behind it, and so is Write, which waits only for the connection's own pump.
pub mod Steps
pub mod Line
pub mod Order
pub mod Ending
pub mod Deadlock
use haprovider.Prelude.{
  ℕ, Bool, true, false, List, [], ◌∷◌, ◌++◌, Option, none, some, length, Text, ◌||◌,
}
use haprovider.Rpc.Message.{Request, Response}
use haprovider.Rpc.Batch.{Result, ok, err}
use haprovider.Ws.Pump.{Act, Link}
use haprovider.Ws.Pump.Acts.{closes_proxy, closes_client, closes_provider}

-- The capacity of the channels Requests and Responses
abbrev pub channel_size : ℕ
channel_size = 32

-- pumpClient: at its select; with acts left to do for a message, and whether it goes on after them;
-- with a response that it has taken, and how many more it has counted, `none` if it has not counted
-- yet; with so many responses left to flush; and returned
pub data ClientPump : Type 0 where
  listens : ClientPump
  acting : List Act → Bool → ClientPump
  relays : Response → Option ℕ → ClientPump
  flushes : ℕ → ClientPump
  returned : ClientPump

-- pumpProvider, in the same way
pub data ProviderPump : Type 0 where
  listens : ProviderPump
  acting : List Act → Bool → ProviderPump
  forwards : Request → Option ℕ → ProviderPump
  flushes : ℕ → ProviderPump
  returned : ProviderPump

-- The loop of the handler: at its select, with acts left to do, and returned
pub data Watcher : Type 0 where
  waits : Watcher
  closing : List Act → Watcher
  returned : Watcher

-- What is written to the client: an answer of our own, or a response of the provider
pub data Written : Type 0 where
  own relayed : Text → Written

-- `done`, `client_done` and `provider_done` are ctx.Done of the proxy and of its two connections;
-- `upstream` and `downstream` are what the two have been given to write. `asked`, `sent`, `answered`
-- and `passed` are no part of the code: the requests handed to the provider pump and those that it
-- is through with, and the responses handed to the client pump and those that it is through with.
pub record Proxy : Type 0 where
  pub client_pump : ClientPump
  pub provider_pump : ProviderPump
  pub watcher : Watcher
  pub requests : List Request
  pub responses : List Response
  pub done : Bool
  pub client_done : Bool
  pub provider_done : Bool
  pub bad_requests : ℕ
  pub link : Link
  pub upstream : List Text
  pub downstream : List Written
  pub asked : List Request
  pub sent : List Request
  pub answered : List Response
  pub passed : List Response

-- The proxy once the client is connected
abbrev pub connected : Link → Proxy
connected link = record {
  client_pump = ClientPump.listens;
  provider_pump = ProviderPump.listens;
  watcher = waits;
  requests = [];
  responses = [];
  done = false;
  client_done = false;
  provider_done = false;
  bad_requests = 0;
  link = link;
  upstream = [];
  downstream = [];
  asked = [];
  sent = [];
  answered = [];
  passed = [];
}

-- A call of Close of the proxy or of a connection
abbrev pub close : Act → Proxy → Proxy
close a s = record s {
  done = closes_proxy a || s.done;
  client_done = closes_client a || s.client_done;
  provider_done = closes_provider a || s.provider_done;
}

-- writeRequest and writeResponse: what cannot be serialised is dropped.
abbrev pub written {ℓ} : {A : Type ℓ} → (Text → A) → Result Text → List A → List A
written mark (ok text) log = log ++ mark text ∷ []
written mark (err e) log = log

-- The counter of a flush: the length of the channel once the first message is written
abbrev pub counted {ℓ} : {A : Type ℓ} → Option ℕ → List A → ℕ
counted none queue = length queue
counted (some n) queue = n
