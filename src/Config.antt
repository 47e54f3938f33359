-- ===== src/Config.antt =====
-- internal/config.go: what LoadConfig makes of the decoded YAML. A panic and log.Fatalf both end the
-- program at its start, and are an error here; the maps are walked in any order, here that of a list.
pub mod Loaded
use haprovider.Prelude.{
  ℕ, suc, Bool, true, false, not, ◌&&◌, ◌||◌, List, [], ◌∷◌, ◌++◌, map, Option, none, some, pos,
  if◌then◌else◌, is_empty, Text, text, text_eq, member, join, decimal, Dict,
}
use haprovider.Rpc.Error.{Error, failure}
use haprovider.Rpc.Batch.{Result, ok, err}
use haprovider.Core.Provider.{Provider}
use haprovider.Core.Endpoint.{Endpoint, Kind, init_auth}
use haprovider.Chain.{Chain, new}
use haprovider.Chain.Config.{validate_config}

-- os.Getenv; os.Expand with a mapping, and the names that it calls it with, in order; url.Parse as a
-- scheme and a host; redact.URL
pub record System : Type 0 where
  pub getenv : Text → Text
  pub expand : (Text → Text) → Text → Text
  pub references : Text → List Text
  pub parse_url : Text → Option (Text × Text)
  pub redacted : Text → Text

-- A provider with its configured headers, and an endpoint with its providers
pub record Configured : Type 0 where
  pub provider : Provider
  pub headers : Dict Text

pub record Section : Type 0 where
  pub endpoint : Endpoint
  pub providers : List Configured

infixl 5 ◌>>=◌
abbrev pub ◌>>=◌ {ℓ κ} : {A : Type ℓ} {B : Type κ} → Result A → (A → Result B) → Result B
ok a >>= f = f a
err e >>= f = err e

module _ (sys : System) where
  -- The list that the mapping of expandURL appends to
  missing_from : List Text → List Text → List Text
  unfolding member
  missing_from missing [] = missing
  missing_from missing (name ∷ names) =
      missing_from
        (if is_empty (sys.getenv name) && not (member name missing)
          then missing ++ name ∷ []
          else missing)
        names

  expanded : Text → Text → Text → List Text → Result Text
  unfolding text join
  expanded id field raw [] = ok (sys.expand sys.getenv raw)
  expanded id field raw (m ∷ ms) = err (
      failure (
        text "provider "
        ++ (id
            ++ (text ": "
                ++ (field
                    ++ (text " URL references unset or empty environment variable(s): "
                        ++ join (text ", ") (m ∷ ms)))))))

  -- expandURL
  unfoldable pub expand_url : Text → Text → Text → Result Text
  unfolding missing_from expanded
  expand_url id field raw = expanded id field raw (missing_from [] (sys.references raw))

  -- os.ExpandEnv over keys and over the values of headers
  pub expand_keys : List Text → List Text
  expand_keys [] = []
  expand_keys (k ∷ ks) = sys.expand sys.getenv k ∷ expand_keys ks

  expand_headers : Dict Text → Dict Text
  expand_headers [] = []
  expand_headers ((k, v) ∷ hs) = (k, sys.expand sys.getenv v) ∷ expand_headers hs

  -- How load errors name a provider
  provider_id : Text → ℕ → Text → Text
  unfolding text decimal
  provider_id endpoint index [] =
      endpoint ++ (text "/providers[" ++ (decimal (pos index) ++ text "]"))
  provider_id endpoint index (c ∷ name) = endpoint ++ (text "/" ++ (c ∷ name))

  -- A URL that parses and has one of two schemes, as its host
  with_scheme : Text → Text → Text → Text → Text → Result Text
  unfolding text text_eq
  with_scheme kind first second id url = elim (sys.parse_url url) [
    | none ↦ err (
        failure (
          text "Invalid "
          ++ (kind ++ (text " URL for provider " ++ (id ++ (text ": " ++ sys.redacted url))))))
    | some (scheme, host) ↦
        if not (text_eq scheme first) && not (text_eq scheme second)
        then err (
            failure (
              text "Invalid "
              ++ (kind ++ (text " URL for provider " ++ (id ++ (text ": " ++ sys.redacted url))))))
        else ok host
  ]

  load_http : Text → Text → Result (Text × Text)
  unfolding text expand_url with_scheme
  load_http id [] = err (failure (text "provider " ++ (id ++ text " has no HTTP endpoint")))
  load_http id (c ∷ raw) = do
    url ← expand_url id (text "http") (c ∷ raw)
    host ← with_scheme (text "HTTP") (text "http") (text "https") id url
    ok (url, host)

  load_ws : Text → Text → Result Text
  unfolding text expand_url with_scheme
  load_ws id [] = ok []
  load_ws id (c ∷ raw) = do
    url ← expand_url id (text "ws") (c ∷ raw)
    host ← with_scheme (text "Websocket") (text "ws") (text "wss") id url
    ok url

  -- The body of the loop over the providers
  unfoldable pub load_provider : Text → ℕ → Configured → Result Configured
  unfolding provider_id load_http load_ws expand_headers
  load_provider endpoint index c =
      let id = provider_id endpoint index c.provider.name in
      do
        (http, host) ← load_http id c.provider.http
        ws ← load_ws id c.provider.ws
        ok (record {
          provider = record c.provider {
            http = http;
            ws = ws;
            name = if is_empty c.provider.name then host else c.provider.name;
          };
          headers = expand_headers c.headers;
        })

  -- The loop over the providers, from an index on
  load_providers : Text → ℕ → List Configured → Result (List Configured)
  unfolding load_provider
  load_providers endpoint index [] = ok []
  load_providers endpoint index (c ∷ cs) = do
    loaded ← load_provider endpoint index c
    rest ← load_providers endpoint (suc index) cs
    ok (loaded ∷ rest)

  abbrev kind_or_eth : Kind → Kind
  kind_or_eth (Kind.unknown []) = Kind.eth
  kind_or_eth kind = kind

  abbrev kind_text : Kind → Text
  kind_text (Kind.unknown k) = k
  kind_text _ = []

  -- The endpoint with its name, keys and kind
  prepared : List Text → Text → Endpoint → Endpoint
  unfolding expand_keys init_auth
  prepared global_keys name e =
      let own = record e {
        name = if is_empty e.name then name else e.name;
        keys = expand_keys e.keys;
      } in
      record (init_auth own global_keys) { kind = kind_or_eth e.kind }

  with_chain : Section → Option Chain → Result Section
  unfolding load_providers validate_config text
  with_chain s none = err (failure (text "unknown chain kind: " ++ kind_text s.endpoint.kind))
  with_chain s (some c) = do
    providers ← load_providers s.endpoint.name 0 s.providers
    valid ← validate_config c s.endpoint (map (λ p. p.provider) providers)
    ok (record s { providers = providers })

  -- The body of the loop over the endpoints
  unfoldable pub load_endpoint : List Text → Text → Section → Result Section
  unfolding prepared with_chain new
  load_endpoint global_keys name s =
      let e = prepared global_keys name s.endpoint in
      with_chain (record s { endpoint = e }) (new e.kind)

  load_endpoints : List Text → Dict Section → Result (Dict Section)
  unfolding load_endpoint
  load_endpoints global_keys [] = ok []
  load_endpoints global_keys ((name, s) ∷ rest) = do
    loaded ← load_endpoint global_keys name s
    others ← load_endpoints global_keys rest
    ok ((name, loaded) ∷ others)

  -- LoadConfig, for the global keys and the endpoints that the YAML decodes to
  unfoldable pub load_config : List Text → Dict Section → Result (Dict Section)
  unfolding load_endpoints expand_keys
  load_config keys sections = load_endpoints (expand_keys keys) sections
