-- ===== src/Ws/Proxy/Deadlock/Only.antt =====
-- Where the two pumps of a proxy cannot go on (internal/ws/ws.go).
use haprovider.Prelude.{
  Option, ℕ, zero, suc, ◌≡◌, ◌≢◌, ◌≤◌, ◌<◌, ◌⊎◌, inl, inr, refl, ap, Bool, false, Bool-cases, List,
  [], ◌∷◌, length, arith,
}
use haprovider.Rpc.Message.{Request, Response}
use haprovider.Rpc.Json.{Json}
use haprovider.Chain.{Chain}
use haprovider.Ws.Pump.{
  Act, to_provider, to_client, close_proxy, close_client, close_provider, Link,
}
use haprovider.Ws.Pump.Acts.{is_request, will}
use haprovider.Ws.Proxy.{channel_size, ClientPump, ProviderPump, Proxy, connected}
use haprovider.Ws.Proxy.Steps.{ClientStep, ProviderStep, Reach}
use haprovider.Ws.Proxy.Order.{responses_left, requests_left}
use haprovider.Ws.Proxy.Order.Kept.{Reach-IsInOrder}
use haprovider.Ws.Proxy.Ending.{provider_acts}
use haprovider.Ws.Proxy.Ending.Kept.{Reach-IsSound}
use haprovider.Ws.Proxy.Deadlock.{IsBlocked}

-- Where pumpClient waits
data ClientWaits (s : Proxy) : Type 0 where
  hungry : s.client_pump ≡ ClientPump.listens → s.responses ≡ [] → ClientWaits s
  stuck :
      (r : Request) (more : List Act) (goes_on : Bool)
      → s.client_pump ≡ ClientPump.acting (to_provider r ∷ more) goes_on
      → channel_size ≤ length s.requests
      → s.done ≡ false
      → s.client_done ≡ false
      → s.provider_done ≡ false
      → ClientWaits s

-- Where pumpProvider waits
data ProviderWaits (s : Proxy) : Type 0 where
  hungry : s.provider_pump ≡ ProviderPump.listens → s.requests ≡ [] → ProviderWaits s
  stuck :
      (res : Response) (more : List Act) (goes_on : Bool)
      → s.provider_pump ≡ ProviderPump.acting (to_client res ∷ more) goes_on
      → channel_size ≤ length s.responses
      → s.done ≡ false
      → s.provider_done ≡ false
      → ProviderWaits s

-- Both pumps wait for messages of the connections, and there is nothing left to pass on.
pub record IsIdle (s : Proxy) : Type 0 where
  pub client : s.client_pump ≡ ClientPump.listens
  pub provider : s.provider_pump ≡ ProviderPump.listens
  pub no_requests : s.requests ≡ []
  pub no_responses : s.responses ≡ []

full_or_not : (n : ℕ) → (n < channel_size) ⊎ (channel_size ≤ n)
full_or_not n = ground arith

module _ (json : Json) (chain : Option Chain) where
  abbrev pub ClientMoves : Proxy → Type 0
  ClientMoves s = (t : Proxy) × ClientStep json chain s t

  abbrev pub ProviderMoves : Proxy → Type 0
  ProviderMoves s = (t : Proxy) × ProviderStep json chain s t

  client_hands :
      (s : Proxy) (r : Request) (more : List Act) (g : Bool)
      → s.client_pump ≡ ClientPump.acting (to_provider r ∷ more) g
      → ClientMoves s ⊎ ClientWaits s
  client_hands s r more g e = elim (full_or_not (length s.requests)) [
    | inl room ↦ inl (_, ClientStep.hands_over r more g e room)
    | inr full ↦ elim (Bool-cases s.done) [
      | inl d ↦ inl (_, ClientStep.gives_up r more g e (inl d))
      | inr d ↦ elim (Bool-cases s.client_done) [
        | inl c ↦ inl (_, ClientStep.gives_up r more g e (inr (inl c)))
        | inr c ↦ elim (Bool-cases s.provider_done) [
          | inl p ↦ inl (_, ClientStep.gives_up r more g e (inr (inr p)))
          | inr p ↦ inr (ClientWaits.stuck r more g e full d c p)
        ]
      ]
    ]
  ]

  client_moves :
      (s : Proxy) (p : ClientPump) (q : List Response)
      → s.client_pump ≡ p
      → s.responses ≡ q
      → p ≢ ClientPump.returned
      → responses_left p ≤ length q
      → ClientMoves s ⊎ ClientWaits s
  client_moves s ClientPump.listens [] e f here_still fits = inr (ClientWaits.hungry e f)
  client_moves s ClientPump.listens (res ∷ rest) e f here_still fits =
      inl (_, ClientStep.takes_first res rest e f)
  client_moves s (ClientPump.acting [] g) q e f here_still fits = inl (_, ClientStep.finishes g e)
  client_moves s (ClientPump.acting (to_provider r ∷ more) g) q e f here_still fits =
      client_hands s r more g e
  client_moves s (ClientPump.acting (to_client res ∷ more) g) q e f here_still fits =
      inl (_, ClientStep.answers res more g e)
  client_moves s (ClientPump.acting (close_proxy x ∷ more) g) q e f here_still fits =
      inl (_, ClientStep.closes (close_proxy x) more g e refl)
  client_moves s (ClientPump.acting (close_client code x ∷ more) g) q e f here_still fits =
      inl (_, ClientStep.closes (close_client code x) more g e refl)
  client_moves s (ClientPump.acting (close_provider code x ∷ more) g) q e f here_still fits =
      inl (_, ClientStep.closes (close_provider code x) more g e refl)
  client_moves s (ClientPump.relays res left) q e f here_still fits =
      inl (_, ClientStep.writes res left e)
  client_moves s (ClientPump.flushes zero) q e f here_still fits = inl (_, ClientStep.flushed e)
  client_moves s (ClientPump.flushes (suc n)) [] e f here_still fits = absurd (omega arith)
  client_moves s (ClientPump.flushes (suc n)) (res ∷ rest) e f here_still fits =
      inl (_, ClientStep.takes_next n res rest e f)
  client_moves s ClientPump.returned q e f here_still fits = absurd (here_still refl)

  provider_hands :
      (s : Proxy) (res : Response) (more : List Act) (g : Bool)
      → s.provider_pump ≡ ProviderPump.acting (to_client res ∷ more) g
      → ProviderMoves s ⊎ ProviderWaits s
  provider_hands s res more g e = elim (full_or_not (length s.responses)) [
    | inl room ↦ inl (_, ProviderStep.hands_over res more g e room)
    | inr full ↦ elim (Bool-cases s.done) [
      | inl d ↦ inl (_, ProviderStep.gives_up res more g e (inl d))
      | inr d ↦ elim (Bool-cases s.provider_done) [
        | inl p ↦ inl (_, ProviderStep.gives_up res more g e (inr p))
        | inr p ↦ inr (ProviderWaits.stuck res more g e full d p)
      ]
    ]
  ]

  provider_moves :
      (s : Proxy) (p : ProviderPump) (q : List Request)
      → s.provider_pump ≡ p
      → s.requests ≡ q
      → p ≢ ProviderPump.returned
      → requests_left p ≤ length q
      → will is_request (provider_acts p) ≡ false
      → ProviderMoves s ⊎ ProviderWaits s
  provider_moves s ProviderPump.listens [] e f here_still fits sound =
      inr (ProviderWaits.hungry e f)
  provider_moves s ProviderPump.listens (r ∷ rest) e f here_still fits sound =
      inl (_, ProviderStep.takes_first r rest e f)
  provider_moves s (ProviderPump.acting [] g) q e f here_still fits sound =
      inl (_, ProviderStep.finishes g e)
  provider_moves s (ProviderPump.acting (to_provider r ∷ more) g) q e f here_still fits sound = cc
  provider_moves s (ProviderPump.acting (to_client res ∷ more) g) q e f here_still fits sound =
      provider_hands s res more g e
  provider_moves s (ProviderPump.acting (close_proxy x ∷ more) g) q e f here_still fits sound =
      inl (_, ProviderStep.closes (close_proxy x) more g e refl)
  provider_moves s (ProviderPump.acting (close_client code x ∷ more) g) q e f here_still fits
        sound =
      inl (_, ProviderStep.closes (close_client code x) more g e refl)
  provider_moves s (ProviderPump.acting (close_provider code x ∷ more) g) q e f here_still fits
        sound =
      inl (_, ProviderStep.closes (close_provider code x) more g e refl)
  provider_moves s (ProviderPump.forwards r left) q e f here_still fits sound =
      inl (_, ProviderStep.writes r left e)
  provider_moves s (ProviderPump.flushes zero) q e f here_still fits sound =
      inl (_, ProviderStep.flushed e)
  provider_moves s (ProviderPump.flushes (suc n)) [] e f here_still fits sound =
      absurd (omega arith)
  provider_moves s (ProviderPump.flushes (suc n)) (r ∷ rest) e f here_still fits sound =
      inl (_, ProviderStep.takes_next n r rest e f)
  provider_moves s ProviderPump.returned q e f here_still fits sound = absurd (here_still refl)

  wait_both :
      (s : Proxy)
      → ClientWaits s
      → ProviderWaits s
      → ClientMoves s ⊎ ProviderMoves s ⊎ IsIdle s ⊎ IsBlocked s
  wait_both s (ClientWaits.hungry e f) (ProviderWaits.hungry e' f') =
      inr (inr (inl (record { client = e; provider = e'; no_requests = f'; no_responses = f })))
  wait_both s (ClientWaits.hungry e f) (ProviderWaits.stuck res more g e' full d p) =
      absurd (omega (arith, ap length f))
  wait_both s (ClientWaits.stuck r more g e full d c p) (ProviderWaits.hungry e' f') =
      absurd (omega (arith, ap length f'))
  wait_both s (ClientWaits.stuck r more g e full d c p)
        (ProviderWaits.stuck res more' g' e' full' d' p') =
      inr (
        inr (
          inr (record {
            request = r;
            more_acts = more;
            client_goes_on = g;
            hands_request = e;
            requests_full = full;
            response = res;
            acts_left = more';
            provider_goes_on = g';
            hands_response = e';
            responses_full = full';
            open_still = (d, c, p);
          })))

  -- In every reachable state in which neither pump has returned, one of them can go on, or both wait
  -- for messages of the connections with nothing left to pass on, or both are blocked with both
  -- channels full: they cannot come to a halt in any other way.
  pub pumps-go_on :
      {on_primary : Bool} (link : Link) {s : Proxy}
      → Reach json chain on_primary (connected link) s
      → s.client_pump ≢ ClientPump.returned
      → s.provider_pump ≢ ProviderPump.returned
      → ClientMoves s ⊎ ProviderMoves s ⊎ IsIdle s ⊎ IsBlocked s
  pumps-go_on link {s} run client provider =
      let v = Reach-IsInOrder json chain link run in
      let sound = Reach-IsSound json chain link run in
      elim (client_moves s s.client_pump s.responses refl refl client v.down.possible) [
        | inl moves ↦ inl moves
        | inr waits ↦
            elim (provider_moves s s.provider_pump s.requests refl refl provider v.up.possible
              sound.no_requests) [ inl moves ↦ inr (inl moves) | inr also ↦ wait_both s waits also ]
      ]
