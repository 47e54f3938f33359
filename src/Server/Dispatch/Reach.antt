-- ===== src/Server/Dispatch/Reach.antt =====
-- Which requests reach a handler (requestHandler of cmd/haprovider/main.go).
use haprovider.Prelude.{
  ◌≡◌, ◌≢◌, inl, inr, refl, Bool, true, false, not, List, [], ◌∷◌, Option, none, some, Bool-cases,
  if◌then◌else◌, is_empty, Text, All, Any, text, text_eq_iff, Dict, lookup, arith,
}
use haprovider.Core.Endpoint.{Kind}
use haprovider.Core.Provider.{Provider}
use haprovider.Server.{Incoming, answer}
use haprovider.Server.Auth.{authenticate}
use haprovider.Server.Auth.Bearer.{IsAuthenticated, authenticate-IsAuthenticated}
use haprovider.Server.Dispatch.{
  Site, Route, answered, to_http_api, to_websocket, to_rpc, by_transport, at_site, route,
  has_websocket_provider, is_tron,
}

not_both : (b : Bool) → b ≡ true → not b ≡ true → ⊥
not_both true h k = cc
not_both false h k = cc

undo_not : (b : Bool) → not b ≡ false → b ≡ true
undo_not true h = refl
undo_not false h = cc

module _ (sites : Dict Site) (i : Incoming) where
  abbrev pub Asks : Type 0
  Asks = i.header (text "Upgrade") ≡ text "websocket"

  -- The site is the one that the request names, and authenticates it.
  pub record Admits (s : Site) : Type 0 where
    pub named : lookup i.id sites ≡ some s
    pub authenticated : IsAuthenticated s.endpoint i.header

  -- Why a request is answered without a handler
  pub data Refused : Type 0 where
    unknown_site : lookup i.id sites ≡ none → Refused
    unauthorized :
        (s : Site) → lookup i.id sites ≡ some s → ¬ IsAuthenticated s.endpoint i.header → Refused
    no_http_api : (s : Site) → Admits s → i.path ≢ [] → s.endpoint.kind ≢ Kind.tron → Refused
    no_websocket : (s : Site) → Admits s → Asks → All (λ p. p.ws ≡ []) s.providers → Refused

  -- What a route says of its request
  abbrev pub Reached : Route → Type 0
  Reached (answered a) = Refused
  Reached (to_http_api s headers) = Admits s × (i.path ≢ []) × (s.endpoint.kind ≡ Kind.tron)
  Reached (to_websocket s headers) =
      Admits s × (i.path ≡ []) × Asks × Any (λ p. p.ws ≢ []) s.providers
  Reached (to_rpc s headers) = Admits s × (i.path ≡ []) × (¬ Asks)

  by_kind :
      (s : Site) (headers : Dict Text)
      → Admits s
      → i.path ≢ []
      → Reached (
          if is_tron s.endpoint.kind
          then to_http_api s headers
          else answered (answer 404 headers []))
  by_kind s headers a path = of_kind s.endpoint.kind refl
    where
      of_kind :
          (k : Kind)
          → s.endpoint.kind ≡ k
          → Reached (if is_tron k then to_http_api s headers else answered (answer 404 headers []))
      of_kind Kind.tron e = (a, path, e)
      of_kind Kind.eth e = no_http_api s a path (λ t. cc)
      of_kind Kind.solana e = no_http_api s a path (λ t. cc)
      of_kind Kind.btc e = no_http_api s a path (λ t. cc)
      of_kind (Kind.unknown k) e = no_http_api s a path (λ t. cc)

  some_websocket : (ps : List Provider) → has_websocket_provider ps ≡ true → Any (λ p. p.ws ≢ []) ps
  unfolding has_websocket_provider
  some_websocket [] h = cc
  some_websocket (p ∷ ps) h = elim (Bool-cases (not (is_empty p.ws))) [
    | inl here ↦ inl (λ e. ground arith)
    | inr other ↦ inr (some_websocket ps (ground arith))
  ]

  no_websockets : (ps : List Provider) → has_websocket_provider ps ≡ false → All (λ p. p.ws ≡ []) ps
  unfolding has_websocket_provider
  no_websockets [] h = tt
  no_websockets (p ∷ ps) h = (empty p.ws (ground arith), no_websockets ps (ground arith))
    where
      empty : (t : Text) → not (is_empty t) ≡ false → t ≡ []
      empty [] e = refl
      empty (c ∷ t) e = cc

  Reached-if :
      (b : Bool) (x y : Route)
      → (b ≡ true → Reached x)
      → (b ≡ false → Reached y)
      → Reached (if b then x else y)
  Reached-if true x y hx hy = hx refl
  Reached-if false x y hx hy = hy refl

  filled_path : (t : Text) → not (is_empty t) ≡ true → t ≢ []
  filled_path [] h = cc
  filled_path (c ∷ t) h = λ e. cc

  no_path : (t : Text) → not (is_empty t) ≡ false → t ≡ []
  no_path [] h = refl
  no_path (c ∷ t) h = cc

  by_transport-Reached :
      (s : Site) (headers : Dict Text) → Admits s → Reached (by_transport s headers i)
  unfolding by_transport
  by_transport-Reached s headers a =
      let same = text_eq_iff (i.header (text "Upgrade")) (text "websocket") in
      Reached-if _ _ _ (λ path. by_kind s headers a (filled_path i.path path))
        (λ path.
          Reached-if _ _ _
            (λ asks.
              Reached-if _ _ _
                (λ some_ws.
                  (a, no_path i.path path, same.0 asks, some_websocket s.providers some_ws))
                (λ no_ws. no_websocket s a (same.0 asks) (no_websockets s.providers no_ws)))
            (λ no_upgrade.
              (a, no_path i.path path, λ asks. absurd (not_both _ (same.1 asks) (ground arith)))))

  at_site-Reached :
      (headers : Dict Text) (o : Option Site)
      → lookup i.id sites ≡ o
      → Reached (at_site headers i o)
  unfolding at_site
  at_site-Reached headers none e = unknown_site e
  at_site-Reached headers (some s) e =
      let auth = authenticate-IsAuthenticated s.endpoint i.header in
      Reached-if (not (authenticate s.endpoint i.header)) _ _
        (λ refused. unauthorized s e (λ h. absurd (not_both _ (auth.1 h) refused)))
        (λ passes.
          by_transport-Reached s headers
            (record { named = e; authenticated = auth.0 (undo_not _ passes) }))

  -- A request reaches a handler only for the endpoint that it names and that authenticates it: the
  -- HTTP API for a path at a TRON endpoint, the WebSocket proxy for an upgrade where a provider has a
  -- WebSocket URL, and JSON-RPC for any other request without a path. It is answered without a handler
  -- only if one of these is missing.
  pub route-Reached : (version : Text) → Reached (route sites version i)
  unfolding route
  route-Reached version = at_site-Reached _ (lookup i.id sites) refl
