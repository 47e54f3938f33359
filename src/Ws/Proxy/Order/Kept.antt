-- ===== src/Ws/Proxy/Order/Kept.antt =====
-- Nothing is lost or reordered between a client and its provider (internal/ws/ws.go).
use haprovider.Prelude.{refl, ap, ◌∙◌, Bool, true, false, Option, length, arith}
use haprovider.Rpc.Json.{Json}
use haprovider.Rpc.Batch.{serialize_request, serialize_response}
use haprovider.Chain.{Chain}
use haprovider.Ws.Pump.{Link}
use haprovider.Ws.Proxy.{ClientPump, ProviderPump, Proxy, connected}
use haprovider.Ws.Proxy.Steps.{
  by_itself, ClientStep, ProviderStep, WatcherStep, Step, by_client, by_provider, by_watcher,
  client_breaks, provider_breaks, Reach, here, next,
}
use haprovider.Ws.Proxy.Line.{
  push-IsLine, take-IsLine, deal-IsLine, texts, written-texts, from_provider, from_provider-own,
  from_provider-relayed,
}
use haprovider.Ws.Proxy.Order.{
  held_response, responses_left, held_request, requests_left, both, IsInOrder, quiet_client,
  quiet_provider, closed-IsInOrder, noted,
}

module _ (json : Json) (chain : Option Chain) where
  ClientStep-IsInOrder :
      {s t : Proxy} → ClientStep json chain s t → IsInOrder json s → IsInOrder json t
  ClientStep-IsInOrder (ClientStep.stops e h) v =
      quiet_client json _ (ap held_response e) refl refl v
  ClientStep-IsInOrder {s = s} (ClientStep.hears m a e h) v =
      quiet_client json (ClientPump.acting _ _) (ap held_response e) refl refl
        (noted json a.bad_requests s.link v)
  ClientStep-IsInOrder {s = s} (ClientStep.hands_over r more goes_on e room) v =
      let w =
        quiet_client json {s = s} (ClientPump.acting more goes_on) (ap held_response e) refl refl
          v in
      record {
        up = push-IsLine _ _ _ _ _ r room v.up;
        down = w.down;
        upstream = v.upstream;
        downstream = v.downstream;
      }
  ClientStep-IsInOrder (ClientStep.gives_up r more goes_on e h) v =
      quiet_client json _ (ap held_response e) refl refl v
  ClientStep-IsInOrder {s = s} (ClientStep.answers res more goes_on e) v =
      let w =
        quiet_client json {s = s} (ClientPump.acting more goes_on) (ap held_response e) refl refl
          v in
      record {
        up = v.up;
        down = w.down;
        upstream = v.upstream;
        downstream = λ still. from_provider-own _ _ ∙ v.downstream still;
      }
  ClientStep-IsInOrder (ClientStep.answer_dropped res more goes_on e h) v =
      quiet_client json _ (ap held_response e) refl refl v
  ClientStep-IsInOrder (ClientStep.closes a more goes_on e h) v =
      quiet_client json _ (ap held_response e) refl refl (closed-IsInOrder json a v)
  ClientStep-IsInOrder (ClientStep.finishes true e) v =
      quiet_client json _ (ap held_response e) refl refl v
  ClientStep-IsInOrder (ClientStep.finishes false e) v =
      quiet_client json _ (ap held_response e) refl refl v
  ClientStep-IsInOrder (ClientStep.takes_first res rest e first) v = record {
    up = v.up;
    down = take-IsLine _ _ _ _ _ res rest 0 (ap held_response e) first (omega arith) v.down;
    upstream = v.upstream;
    downstream = v.downstream;
  }
  ClientStep-IsInOrder (ClientStep.takes_next n res rest e first) v = record {
    up = v.up;
    down =
        take-IsLine _ _ _ _ _ res rest n (ap held_response e) first
          (omega (arith, v.down.possible, ap responses_left e, ap length first)) v.down;
    upstream = v.upstream;
    downstream = v.downstream;
  }
  ClientStep-IsInOrder (ClientStep.writes res left e) v = record {
    up = v.up;
    down = deal-IsLine _ _ _ _ _ res left (ap held_response e) (ap responses_left e) v.down;
    upstream = v.upstream;
    downstream = λ still.
        from_provider-relayed _ _
        ∙ written-texts (serialize_response json) _ res _ (v.downstream still);
  }
  ClientStep-IsInOrder (ClientStep.write_dropped res left e h) v = record {
    up = v.up;
    down = deal-IsLine _ _ _ _ _ res left (ap held_response e) (ap responses_left e) v.down;
    upstream = v.upstream;
    downstream = λ still. absurd (both _ h still);
  }
  ClientStep-IsInOrder (ClientStep.flushed e) v =
      quiet_client json _ (ap held_response e) refl refl v

  ProviderStep-IsInOrder :
      {s t : Proxy} → ProviderStep json chain s t → IsInOrder json s → IsInOrder json t
  ProviderStep-IsInOrder (ProviderStep.stops e h) v =
      quiet_provider json _ (ap held_request e) refl refl v
  ProviderStep-IsInOrder {s = s} (ProviderStep.hears m now h e k) v =
      quiet_provider json (ProviderPump.acting _ _) (ap held_request e) refl refl
        (noted json s.bad_requests h.link v)
  ProviderStep-IsInOrder {s = s} (ProviderStep.hands_over res more goes_on e room) v =
      let w =
        quiet_provider json {s = s} (ProviderPump.acting more goes_on) (ap held_request e) refl refl
          v in
      record {
        up = w.up;
        down = push-IsLine _ _ _ _ _ res room v.down;
        upstream = v.upstream;
        downstream = v.downstream;
      }
  ProviderStep-IsInOrder (ProviderStep.gives_up res more goes_on e h) v =
      quiet_provider json _ (ap held_request e) refl refl v
  ProviderStep-IsInOrder (ProviderStep.closes a more goes_on e h) v =
      quiet_provider json _ (ap held_request e) refl refl (closed-IsInOrder json a v)
  ProviderStep-IsInOrder (ProviderStep.finishes true e) v =
      quiet_provider json _ (ap held_request e) refl refl v
  ProviderStep-IsInOrder (ProviderStep.finishes false e) v =
      quiet_provider json _ (ap held_request e) refl refl v
  ProviderStep-IsInOrder (ProviderStep.takes_first r rest e first) v = record {
    up = take-IsLine _ _ _ _ _ r rest 0 (ap held_request e) first (omega arith) v.up;
    down = v.down;
    upstream = v.upstream;
    downstream = v.downstream;
  }
  ProviderStep-IsInOrder (ProviderStep.takes_next n r rest e first) v = record {
    up =
        take-IsLine _ _ _ _ _ r rest n (ap held_request e) first
          (omega (arith, v.up.possible, ap requests_left e, ap length first)) v.up;
    down = v.down;
    upstream = v.upstream;
    downstream = v.downstream;
  }
  ProviderStep-IsInOrder (ProviderStep.writes r left e) v = record {
    up = deal-IsLine _ _ _ _ _ r left (ap held_request e) (ap requests_left e) v.up;
    down = v.down;
    upstream = λ still. written-texts (serialize_request json) _ r _ (v.upstream still);
    downstream = v.downstream;
  }
  ProviderStep-IsInOrder (ProviderStep.write_dropped r left e h) v = record {
    up = deal-IsLine _ _ _ _ _ r left (ap held_request e) (ap requests_left e) v.up;
    down = v.down;
    upstream = λ still. absurd (both _ h still);
    downstream = v.downstream;
  }
  ProviderStep-IsInOrder (ProviderStep.flushed e) v =
      quiet_provider json _ (ap held_request e) refl refl v

  WatcherStep-IsInOrder :
      {on_primary : Bool} {s t : Proxy}
      → WatcherStep on_primary s t
      → IsInOrder json s
      → IsInOrder json t
  WatcherStep-IsInOrder (WatcherStep.woken ev acts e h k) v = record {
    up = v.up;
    down = v.down;
    upstream = v.upstream;
    downstream = v.downstream;
  }
  WatcherStep-IsInOrder (WatcherStep.closes a more e) v =
      let w = closed-IsInOrder json a v in
      record { up = w.up; down = w.down; upstream = w.upstream; downstream = w.downstream }
  WatcherStep-IsInOrder (WatcherStep.returns e) v = record {
    up = v.up;
    down = v.down;
    upstream = v.upstream;
    downstream = v.downstream;
  }

  pub Step-IsInOrder :
      {on_primary : Bool} {s t : Proxy}
      → Step json chain on_primary s t
      → IsInOrder json s
      → IsInOrder json t
  Step-IsInOrder (by_itself (by_client c)) v = ClientStep-IsInOrder c v
  Step-IsInOrder (by_itself (by_provider p)) v = ProviderStep-IsInOrder p v
  Step-IsInOrder (by_itself (by_watcher w)) v = WatcherStep-IsInOrder w v
  Step-IsInOrder client_breaks v = record {
    up = v.up;
    down = v.down;
    upstream = v.upstream;
    downstream = λ still. cc;
  }
  Step-IsInOrder provider_breaks v = record {
    up = v.up;
    down = v.down;
    upstream = λ still. cc;
    downstream = v.downstream;
  }

  -- In every reachable state the requests that pumpClient has handed over are those that
  -- pumpProvider is through with, then the one that it holds, then those in the channel, in this
  -- order, and so are the responses in the other direction. Each channel holds at most 32, and a
  -- flush never waits: no more is counted than is there. While a connection is open, what has been
  -- written to it for the other side are the messages dealt with, in order, less any that cannot be
  -- serialised.
  pub Reach-IsInOrder :
      {on_primary : Bool} (link : Link) {s : Proxy}
      → Reach json chain on_primary (connected link) s
      → IsInOrder json s
  unfolding texts from_provider
  Reach-IsInOrder link here = record {
    up = record { kept = refl; bounded = omega arith; possible = omega arith };
    down = record { kept = refl; bounded = omega arith; possible = omega arith };
    upstream = λ still. refl;
    downstream = λ still. refl;
  }
  Reach-IsInOrder link (next r step) = Step-IsInOrder step (Reach-IsInOrder link r)
