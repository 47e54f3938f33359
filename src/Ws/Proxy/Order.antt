-- ===== src/Ws/Proxy/Order.antt =====
-- The messages under way between a client and its provider (internal/ws/ws.go).
pub mod Kept
use haprovider.Prelude.{
  ℕ, zero, suc, ◌≡◌, ◌≤◌, refl, ap, ◌∙◌, Bool, true, false, ◌||◌, List, [], ◌∷◌, ◌++◌, Option, none,
  some, map, length, Text, arith,
}
use haprovider.Rpc.Message.{Request, Response}
use haprovider.Rpc.Json.{Json}
use haprovider.Rpc.Batch.{Result, serialize_request, serialize_response}
use haprovider.Chain.{Chain}
use haprovider.Ws.Pump.{Act, Link}
use haprovider.Ws.Pump.Acts.{closes_client, closes_provider}
use haprovider.Ws.Proxy.{
  ClientPump, ProviderPump, own, relayed, Proxy, connected, written, counted, close,
}
use haprovider.Ws.Proxy.Steps.{
  ClientStep, ProviderStep, WatcherStep, Step, by_client, by_provider, by_watcher, client_breaks,
  provider_breaks, Reach, here, next,
}
use haprovider.Ws.Proxy.Line.{
  expected, IsLine, push-IsLine, take-IsLine, deal-IsLine, rest-IsLine, texts, written-texts,
  from_provider, from_provider-own, from_provider-relayed,
}

-- The message that a pump has taken, and how many more it is about to take
abbrev pub held_response : ClientPump → List Response
held_response (ClientPump.relays res left) = res ∷ []
held_response _ = []

abbrev pub responses_left : ClientPump → ℕ
responses_left (ClientPump.relays res left) = expected left
responses_left (ClientPump.flushes n) = n
responses_left _ = 0

abbrev pub held_request : ProviderPump → List Request
held_request (ProviderPump.forwards r left) = r ∷ []
held_request _ = []

abbrev pub requests_left : ProviderPump → ℕ
requests_left (ProviderPump.forwards r left) = expected left
requests_left (ProviderPump.flushes n) = n
requests_left _ = 0

pub was_false : (a b : Bool) → (a || b) ≡ false → b ≡ false
was_false true b h = cc
was_false false b h = h

pub both : (b : Bool) → b ≡ true → b ≡ false → ⊥
both true h k = cc
both false h k = cc

module _ (json : Json) where
  pub record IsInOrder (s : Proxy) : Type 0 where
    pub up :
        IsLine s.asked s.sent
          (held_request s.provider_pump)
          s.requests
          (requests_left s.provider_pump)
    pub down :
        IsLine s.answered s.passed
          (held_response s.client_pump)
          s.responses
          (responses_left s.client_pump)
    pub upstream :
        s.provider_done ≡ false → s.upstream ≡ texts (map (serialize_request json) s.sent)
    pub downstream :
        s.client_done ≡ false
        → from_provider s.downstream ≡ texts (map (serialize_response json) s.passed)

  pub quiet_client :
      {s : Proxy} (pump : ClientPump)
      → held_response s.client_pump ≡ []
      → held_response pump ≡ []
      → responses_left pump ≡ 0
      → IsInOrder s
      → IsInOrder (record s { client_pump = pump })
  quiet_client pump before after counted_none v = record {
    up = v.up;
    down = rw (after, counted_none) (rest-IsLine _ _ _ _ _ 0 before (omega arith) v.down);
    upstream = v.upstream;
    downstream = v.downstream;
  }

  pub quiet_provider :
      {s : Proxy} (pump : ProviderPump)
      → held_request s.provider_pump ≡ []
      → held_request pump ≡ []
      → requests_left pump ≡ 0
      → IsInOrder s
      → IsInOrder (record s { provider_pump = pump })
  quiet_provider pump before after counted_none v = record {
    up = rw (after, counted_none) (rest-IsLine _ _ _ _ _ 0 before (omega arith) v.up);
    down = v.down;
    upstream = v.upstream;
    downstream = v.downstream;
  }

  pub closed-IsInOrder : {s : Proxy} (a : Act) → IsInOrder s → IsInOrder (close a s)
  closed-IsInOrder a v = record {
    up = v.up;
    down = v.down;
    upstream = λ still. v.upstream (was_false (closes_provider a) _ still);
    downstream = λ still. v.downstream (was_false (closes_client a) _ still);
  }

  pub noted :
      {s : Proxy} (bad : ℕ) (link : Link)
      → IsInOrder s
      → IsInOrder (record s { bad_requests = bad; link = link })
  noted bad link v = record {
    up = v.up;
    down = v.down;
    upstream = v.upstream;
    downstream = v.downstream;
  }
