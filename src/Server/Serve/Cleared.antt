-- ===== src/Server/Serve/Cleared.antt =====
-- What a request has passed before a provider is contacted for it (requestHandler of
-- cmd/haprovider/main.go with the handlers of internal/http.go and internal/ws/ws.go).
use haprovider.Prelude.{
  [], ◌≡◌, ◌≢◌, ◌⊎◌, inl, inr, refl, Bool, true, false, not, ◌&&◌, Option, none, some, Text, text,
  text_eq, text_eq_iff, Bool-cases, Any, Dict, lookup,
}
use haprovider.Prelude.Outcome.{Outcome, done, panicked, ◌>>=◌}
use haprovider.Rpc.Json.{Json}
use haprovider.Core.Endpoint.{Kind}
use haprovider.Chain.{Chain, new}
use haprovider.Failover.Loop.{Ended}
use haprovider.Server.{Incoming}
use haprovider.Server.Coalesce.{Handled}
use haprovider.Server.Handler.{incoming_rpc}
use haprovider.Server.Handler.Guards.{IsAdmitted, incoming_rpc-IsAdmitted}
use haprovider.Server.HttpApi.{allowed_http_api_path}
use haprovider.Server.HttpApi.Loop.{Setup, Passed, incoming_http_api}
use haprovider.Server.Dispatch.{Site, Route, answered, to_http_api, to_websocket, to_rpc, route}
use haprovider.Server.Dispatch.Reach.{Admits, Asks, Refused, Reached, route-Reached}
use haprovider.Server.Serve.{
  Around, Served, turned_away, by_rpc, by_http_api, by_websocket, dispatched, serve,
}

-- A method and a path that the HTTP API forwards
pub record IsForwardable (i : Incoming) : Type 0 where
  pub method : (i.method ≡ text "GET") ⊎ (i.method ≡ text "POST")
  pub path : allowed_http_api_path i.path ≡ true

none-some {ℓ} : {A : Type ℓ} {a : A} → none ≡ some a → ⊥
none-some h = cc

get_or_post :
    {P Q : Type 0} {a b : Bool} → (a ≡ true → P) → (b ≡ true → Q) → (not a && not b) ≡ false → P ⊎ Q
get_or_post {a = true} f g h = inl (f refl)
get_or_post {a = false} {b = true} f g h = inr (g refl)
get_or_post {a = false} {b = false} f g h = cc

incoming_http_api-IsForwardable :
    (setup : Setup) (s : Site) (headers : Dict Text) (i : Incoming) (vs : _) (labels : _)
    (l : Passed)
    → (incoming_http_api setup s.endpoint headers i vs labels).passed ≡ some l
    → IsForwardable i
unfolding incoming_http_api
incoming_http_api-IsForwardable setup s headers i vs labels l h =
    let get = text_eq_iff i.method (text "GET") in
    let post = text_eq_iff i.method (text "POST") in
    elim (Bool-cases
      (not (text_eq i.method (text "GET")) && not (text_eq i.method (text "POST")))) [
        | inl other ↦ absurd (none-some (rw other at h))
        | inr fits ↦ elim (Bool-cases (allowed_http_api_path i.path)) [
          | inr not_allowed ↦ absurd (none-some (rw (fits, not_allowed) at h))
          | inl path ↦ record { method = get_or_post get.0 post.0 fits; path = path }
        ]
      ]

module _ (sites : Dict Site) (i : Incoming) where
  -- The endpoints are of known kinds, as those of a configuration that loads are.
  abbrev pub AllKnown : Type 0
  AllKnown = (s : Site) → lookup i.id sites ≡ some s → new s.endpoint.kind ≢ none

module _ (json : Json) (i : Incoming) where
  -- A request to which the JSON-RPC handler has run the failover loop
  pub record IsCall (s : Site) : Type 0 where
    pub chain : Chain
    pub known : new s.endpoint.kind ≡ some chain
    pub admitted : IsAdmitted json chain i

module _ (json : Json) (sites : Dict Site) (i : Incoming) where
  -- What holds of a request, by what has become of it.
  abbrev pub Cleared : Served → Type 0
  Cleared (turned_away reply) = Refused sites i
  Cleared (by_rpc s h) =
      Admits sites i s × (i.path ≡ []) × (¬ Asks sites i) × ((h.forwarded ≡ none) ⊎ IsCall json i s)
  Cleared (by_http_api s reply passed) =
      Admits sites i s
      × (i.path ≢ [])
      × (s.endpoint.kind ≡ Kind.tron)
      × ((passed ≡ none) ⊎ IsForwardable i)
  Cleared (by_websocket s d ran) =
      Admits sites i s × (i.path ≡ []) × Asks sites i × Any (λ p. p.ws ≢ []) s.providers

module _ (json : Json) (setup : Setup) (sites : Dict Site) (i : Incoming) (a : Around) where
  known_chain : (o : Option Chain) → o ≢ none → (c : Chain) × (o ≡ some c)
  known_chain none h = absurd (h refl)
  known_chain (some c) h = (c, refl)

  forwarded-IsCall :
      (s : Site) (headers : Dict Text) (h : Handled)
      → new s.endpoint.kind ≢ none
      → incoming_rpc json setup.show s.endpoint headers (a.rpc s) i ≡ done h
      → (h.forwarded ≡ none) ⊎ IsCall json i s
  forwarded-IsCall s headers h known runs = of_loop h.forwarded refl
    where
      of_loop : (o : Option Ended) → h.forwarded ≡ o → (h.forwarded ≡ none) ⊎ IsCall json i s
      of_loop none e = inl e
      of_loop (some ended) e =
          let (c, is_c) = known_chain (new s.endpoint.kind) known in
          inr (record {
            chain = c;
            known = is_c;
            admitted =
                incoming_rpc-IsAdmitted json setup.show s.endpoint headers (a.rpc s) c is_c i h
                  ended runs e;
          })

  passed-IsForwardable :
      (s : Site) (headers : Dict Text) (o : Option Passed)
      → (incoming_http_api setup s.endpoint headers i (a.api s) a.labels).passed ≡ o
      → (o ≡ none) ⊎ IsForwardable i
  passed-IsForwardable s headers none e = inl refl
  passed-IsForwardable s headers (some l) e =
      inr (incoming_http_api-IsForwardable setup s headers i (a.api s) a.labels l e)

  -- What a computation that has ended well ended in.
  ended_in :
      {A : Type 0} (o : Outcome A) (f : A → Served) {r : Served}
      → (o >>= λ x. done (f x)) ≡ done r
      → (x : A) × (o ≡ done x) × (f x ≡ r)
  ended_in panicked f h = cc
  ended_in (done x) f h = (x, refl, cc)

  dispatched-Cleared :
      (way : Route) (r : Served)
      → AllKnown sites i
      → Reached sites i way
      → dispatched json setup i a way ≡ done r
      → Cleared json sites i r
  unfolding dispatched
  dispatched-Cleared (answered reply) r known reached h =
      let same : turned_away reply ≡ r = cc in rw (← same) reached
  dispatched-Cleared (to_http_api s headers) r known (admits, path, tron) h =
      let p = incoming_http_api setup s.endpoint headers i (a.api s) a.labels in
      let same : by_http_api s p.answer p.passed ≡ r = cc in
      rw (← same) (admits, path, tron, passed-IsForwardable s headers p.passed refl)
  dispatched-Cleared (to_websocket s headers) r known (admits, path, asks, some_ws) h =
      let (ran, runs, same) = ended_in _ _ h in rw (← same) (admits, path, asks, some_ws)
  dispatched-Cleared (to_rpc s headers) r known (admits, path, no_upgrade) h =
      let (handled, runs, same) = ended_in _ _ h in
      let call = forwarded-IsCall s headers handled (known s admits.named) runs in
      rw (← same) (admits, path, no_upgrade, call)

  -- Where the endpoints are of known kinds, what a request has come to when its handler returns
  -- shows what it had passed: only the endpoint that it names, and that authenticates it, handles it.
  -- The HTTP API handles it only with a path and at a TRON endpoint, and goes to the providers only
  -- for a GET or POST of a path that is let through; the WebSocket proxy only for an upgrade where a
  -- provider has a WebSocket URL; the JSON-RPC handler any other request without a path, and it runs
  -- the failover loop to its end only for one with a JSON content type, a body that arrives whole
  -- within 5 MiB, and at most 100 requests that the chain allows. It is turned away only if the
  -- endpoint is unknown, does not authenticate it, or does not offer the transport.
  pub serve-Cleared :
      (version : Text) (r : Served)
      → AllKnown sites i
      → serve json setup i a sites version ≡ done r
      → Cleared json sites i r
  unfolding serve
  serve-Cleared version r known h =
      dispatched-Cleared (route sites version i) r known (route-Reached sites i version) h
