-- ===== src/Ws/Proxy/Deadlock/Reached.antt =====
-- How the two pumps of a proxy come to wait for each other (internal/ws/ws.go).
use haprovider.Prelude.{
  ℕ, zero, suc, ◌+◌, ◌≡◌, ◌≤◌, ◌<◌, refl, ap, ◌∙◌, Bool, true, false, List, [], ◌∷◌, ◌++◌, map,
  some, all, take-all, leb, length, length-append, Text, arith,
}
use haprovider.Prelude.Outcome.{done, deref_all}
use haprovider.Rpc.Message.{Request, Response}
use haprovider.Rpc.Json.{Json}
use haprovider.Rpc.Batch.{BatchRequest, ok, max_batch_size, decode_batch_request, decode_response}
use haprovider.Chain.{Chain}
use haprovider.Chain.Reject.Whole.{allowed}
use haprovider.Failover.Visit.{for_client, classify}
use haprovider.Ws.Pump.{Asked, to_provider, to_client, Link, client_message}
use haprovider.Ws.Pump.Upstream.{provider_message-passed_on}
use haprovider.Ws.Pump.Downstream.{client_message-passed_on}
use haprovider.Ws.Proxy.{channel_size, ClientPump, ProviderPump, Proxy, connected}
use haprovider.Ws.Proxy.Steps.{
  by_itself, ClientStep, ProviderStep, by_client, by_provider, Reach, here, next,
}
use haprovider.Ws.Proxy.Deadlock.{IsBlocked}

-- Nothing is closed.
abbrev Open : Proxy → Type 0
Open s = (s.done ≡ false) × (s.client_done ≡ false) × (s.provider_done ≡ false)

module _ (json : Json) (c : Chain) (on_primary : Bool) where
  -- pumpClient hands requests over until there is no room.
  record Filled (origin : Proxy) (s : Proxy) (g : Bool) : Type 0 where
    state : Proxy
    run : Reach json (some c) on_primary origin state
    request : Request
    others : List Request
    stuck : state.client_pump ≡ ClientPump.acting (to_provider request ∷ map to_provider others) g
    full : channel_size ≤ length state.requests
    same_pump : state.provider_pump ≡ s.provider_pump
    same_responses : state.responses ≡ s.responses
    same_open : Open s → Open state

  fill_requests :
      (origin : Proxy) (k : ℕ) (rs : List Request) (s : Proxy) (g : Bool)
      → Reach json (some c) on_primary origin s
      → s.client_pump ≡ ClientPump.acting (map to_provider rs) g
      → length s.requests + k ≡ channel_size
      → k < length rs
      → Filled origin s g
  fill_requests origin k [] s g r e room more = absurd (omega arith)
  fill_requests origin zero (q ∷ rs) s g r e room more = record {
    state = s;
    run = r;
    request = q;
    others = rs;
    stuck = e;
    full = omega arith;
    same_pump = refl;
    same_responses = refl;
    same_open = λ o. o;
  }
  fill_requests origin (suc k) (q ∷ rs) s g r e room more =
      let t : Proxy = record s {
        client_pump = ClientPump.acting (map to_provider rs) g;
        requests = s.requests ++ q ∷ [];
        asked = s.asked ++ q ∷ [];
      } in
      let step : ClientStep json (some c) s t =
        ClientStep.hands_over q (map to_provider rs) g e (omega arith) in
      let f =
        fill_requests origin k rs t g (next r (by_itself (by_client step))) refl
          (omega (arith, length-append s.requests (q ∷ []))) (omega arith) in
      record {
        state = f.state;
        run = f.run;
        request = f.request;
        others = f.others;
        stuck = f.stuck;
        full = f.full;
        same_pump = f.same_pump;
        same_responses = f.same_responses;
        same_open = f.same_open;
      }

  module _ (message : Text) (res : Response) (now : ℕ)
      (decodes : decode_response json message ≡ ok res)
      (fine : classify json (some c) res ≡ done for_client) where
    -- pumpProvider hands responses over until there is no room.
    record Answered (origin : Proxy) (s : Proxy) : Type 0 where
      state : Proxy
      run : Reach json (some c) on_primary origin state
      stuck : state.provider_pump ≡ ProviderPump.acting (to_client res ∷ []) true
      full : channel_size ≤ length state.responses
      same_pump : state.client_pump ≡ s.client_pump
      same_requests : state.requests ≡ s.requests
      same_open : Open s → Open state

    fill_responses :
        (origin : Proxy) (k : ℕ) (s : Proxy)
        → Reach json (some c) on_primary origin s
        → s.provider_pump ≡ ProviderPump.listens
        → length s.responses + k ≡ channel_size
        → Answered origin s
    fill_responses origin zero s r e room =
        let (l, hears) =
          provider_message-passed_on json c true s.link message now res decodes fine in
        record {
          state = record s {
            provider_pump = ProviderPump.acting (to_client res ∷ []) true;
            link = l;
          };
          run = next r (by_itself (by_provider (ProviderStep.hears message now _ e hears)));
          stuck = refl;
          full = omega arith;
          same_pump = refl;
          same_requests = refl;
          same_open = λ o. o;
        }
    fill_responses origin (suc k) s r e room =
        let (l, hears) =
          provider_message-passed_on json c true s.link message now res decodes fine in
        let heard : Proxy = record s {
          provider_pump = ProviderPump.acting (to_client res ∷ []) true;
          link = l;
        } in
        let handed : Proxy = record heard {
          provider_pump = ProviderPump.acting [] true;
          responses = s.responses ++ res ∷ [];
          answered = s.answered ++ res ∷ [];
        } in
        let listening : Proxy = record handed { provider_pump = ProviderPump.listens } in
        let hearing : ProviderStep json (some c) s heard =
          ProviderStep.hears message now _ e hears in
        let handing : ProviderStep json (some c) heard handed =
          ProviderStep.hands_over res [] true refl (omega arith) in
        let finishing : ProviderStep json (some c) handed listening =
          ProviderStep.finishes true refl in
        let run =
          next (next (next r (by_itself (by_provider hearing))) (by_itself (by_provider handing)))
            (by_itself (by_provider finishing)) in
        let a =
          fill_responses origin k listening run refl
            (omega (arith, length-append s.responses (res ∷ []))) in
        record {
          state = a.state;
          run = a.run;
          stuck = a.stuck;
          full = a.full;
          same_pump = a.same_pump;
          same_requests = a.same_requests;
          same_open = a.same_open;
        }

    -- A client that sends one batch of 33 to 100 requests, all allowed, to a provider that sends 33
    -- responses without an error meanwhile, can bring both pumps to wait for each other.
    pub Reach-IsBlocked :
        (link : Link) (batch : Text) (q : BatchRequest) (reqs : List Request)
        → decode_batch_request json batch ≡ done (ok q)
        → length q.requests ≤ max_batch_size
        → deref_all q.requests ≡ done reqs
        → all (allowed c) reqs ≡ true
        → channel_size < length reqs
        → length reqs ≤ max_batch_size
        → (s : Proxy) × Reach json (some c) on_primary (connected link) s × IsBlocked s
    Reach-IsBlocked link batch q reqs parses few members every many most =
        let start = connected link in
        let asked : Asked = record {
          bad_requests = 0;
          acts = map to_provider reqs;
          goes_on = true;
        } in
        let few_enough : leb (length reqs) max_batch_size ≡ true = ground arith in
        let hears : client_message json (some c) max_batch_size 0 batch ≡ done asked =
          client_message-passed_on json c max_batch_size 0 batch q reqs parses few members
          ∙ rw (every, take-all max_batch_size reqs most, few_enough) refl in
        let s : Proxy = record start {
          client_pump = ClientPump.acting (map to_provider reqs) true;
        } in
        let hearing : ClientStep json (some c) start s = ClientStep.hears batch asked refl hears in
        let f =
          fill_requests start channel_size reqs s true (next here (by_itself (by_client hearing)))
            refl (omega arith) many in
        let empty : length f.state.responses ≡ 0 = ap length f.same_responses in
        let a = fill_responses start channel_size f.state f.run (f.same_pump) (omega arith) in
        (
          a.state,
          a.run,
          record {
            request = f.request;
            more_acts = map to_provider f.others;
            client_goes_on = true;
            hands_request = a.same_pump ∙ f.stuck;
            requests_full = rw a.same_requests f.full;
            response = res;
            acts_left = [];
            provider_goes_on = true;
            hands_response = a.stuck;
            responses_full = a.full;
            open_still = a.same_open (f.same_open (refl, refl, refl));
          },
        )
