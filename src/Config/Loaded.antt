-- ===== src/Config/Loaded.antt =====
-- What holds of a configuration that loads (internal/config.go).
use haprovider.Prelude.{
  ℕ, suc, ap, ◌≡◌, ◌≢◌, ◌⊎◌, inl, inr, refl, Bool, true, false, not, ◌&&◌, List, [], ◌∷◌, ◌++◌, map,
  Option, none, some, Bool-cases, Option-cases, All, if◌then◌else◌, is_empty, Text, text, text_eq,
  text_eq_iff, member, Dict, arith,
}
use haprovider.Rpc.Batch.{Result, ok, err}
use haprovider.Chain.{Chain, new}
use haprovider.Chain.Config.{validate_config}
use haprovider.Config.{
  System, Configured, Section, ◌>>=◌, missing_from, expanded, expand_url, expand_keys, with_scheme,
  expand_headers, load_http, load_ws, load_provider, provider_id, load_providers, with_chain,
  prepared, load_endpoint, load_endpoints, load_config,
}

-- P of the value, if there is one.
abbrev pub OnOk {ℓ} : {A : Type ℓ} → (A → Type 0) → Result A → Type 0
OnOk P (ok a) = P a
OnOk P (err e) = Unit

OnOk->>= {ℓ κ} :
    {A : Type ℓ} {B : Type κ} (Q : B → Type 0) (m : Result A) (f : A → Result B)
    → ((a : A) → m ≡ ok a → OnOk Q (f a))
    → OnOk Q (m >>= f)
OnOk->>= Q (ok a) f next = next a refl
OnOk->>= Q (err e) f next = tt

OnOk-ok {ℓ} : {A : Type ℓ} (P : A → Type 0) (m : Result A) (a : A) → OnOk P m → m ≡ ok a → P a
OnOk-ok P m a h e = rw e at h

-- A relation between the elements of two lists, one by one
abbrev pub Pairs {ℓ κ} : {A : Type ℓ} {B : Type κ} → (A → B → Type 0) → List A → List B → Type 0
Pairs R [] [] = Unit
Pairs R (x ∷ xs) (y ∷ ys) = R x y × Pairs R xs ys
Pairs R _ _ = ⊥

module _ (sys : System) where
  -- The configured text `raw`, expanded: it refers to no unset or empty variable, and the URL has one of
  -- two schemes.
  pub record IsUrl (raw url first second : Text) : Type 0 where
    pub given : raw ≢ []
    pub expands : url ≡ sys.expand sys.getenv raw
    pub set : All (λ name. sys.getenv name ≢ []) (sys.references raw)
    pub scheme : Text
    pub host : Text
    pub parses : sys.parse_url url ≡ some (scheme, host)
    pub one_of : (scheme ≡ first) ⊎ (scheme ≡ second)

  -- A provider that can be dialled, as it is configured and as it is loaded
  pub record IsUsable (c d : Configured) : Type 0 where
    pub http : IsUrl c.provider.http d.provider.http (text "http") (text "https")
    pub ws :
        ((c.provider.ws ≡ []) × (d.provider.ws ≡ []))
        ⊎ IsUrl c.provider.ws d.provider.ws (text "ws") (text "wss")
    pub headers : d.headers ≡ map (λ h. (h.0, sys.expand sys.getenv h.1)) c.headers

  -- An endpoint of a known kind whose providers can be dialled, which its chain takes as valid, and
  -- which accepts its own keys, expanded, and the global ones; `s` is the configured one.
  pub record IsLoaded (global_keys : List Text) (s t : Section) : Type 0 where
    pub chain : Chain
    pub known : new t.endpoint.kind ≡ some chain
    pub usable : Pairs IsUsable s.providers t.providers
    pub valid : validate_config chain t.endpoint (map (λ p. p.provider) t.providers) ≡ ok tt
    pub keys :
        t.endpoint.auth_keys ≡ map (λ k. sys.expand sys.getenv k) s.endpoint.keys ++ global_keys

  expand_keys-map : (ks : List Text) → expand_keys sys ks ≡ map (λ k. sys.expand sys.getenv k) ks
  unfolding expand_keys
  expand_keys-map [] = refl
  expand_keys-map (k ∷ ks) =
      ap (λ (xs : List Text). sys.expand sys.getenv k ∷ xs) (expand_keys-map ks)

  expand_headers-map :
      (hs : Dict Text) → expand_headers sys hs ≡ map (λ h. (h.0, sys.expand sys.getenv h.1)) hs
  unfolding expand_headers
  expand_headers-map [] = refl
  expand_headers-map ((k, v) ∷ hs) =
      ap (λ (xs : Dict Text). (k, sys.expand sys.getenv v) ∷ xs) (expand_headers-map hs)

  -- Once a name is on the list of missing ones, the list is not empty.
  missing-not_empty : (m : Text) (ms names : List Text) → missing_from sys (m ∷ ms) names ≢ []
  unfolding missing_from
  missing-not_empty m ms [] = λ e. cc
  missing-not_empty m ms (name ∷ names) =
      appended (is_empty (sys.getenv name) && not (member name (m ∷ ms)))
        (missing-not_empty m (ms ++ name ∷ []) names) (missing-not_empty m ms names)
    where
      appended :
          (b : Bool)
          → missing_from sys (m ∷ (ms ++ name ∷ [])) names ≢ []
          → missing_from sys (m ∷ ms) names ≢ []
          → missing_from sys (if b then m ∷ (ms ++ name ∷ []) else m ∷ ms) names ≢ []
      appended true h k = h
      appended false h k = k

  missing-none :
      (names : List Text)
      → missing_from sys [] names ≡ []
      → All (λ name. sys.getenv name ≢ []) names
  unfolding missing_from member
  missing-none [] h = tt
  missing-none (name ∷ names) h = elim (Bool-cases (is_empty (sys.getenv name))) [
    | inl missing ↦ absurd (missing-not_empty name [] names (rw missing at h))
    | inr found ↦ ((λ e. ground arith), missing-none names (rw found at h))
  ]

  expanded-ok :
      (id field raw url : Text) (ms : List Text)
      → expanded sys id field raw ms ≡ ok url
      → (url ≡ sys.expand sys.getenv raw) × (ms ≡ [])
  unfolding expanded
  expanded-ok id field raw url [] h = (cc, refl)
  expanded-ok id field raw url (m ∷ ms) h = cc

  with_scheme-ok :
      (kind first second id url host : Text)
      → with_scheme sys kind first second id url ≡ ok host
      → (scheme : Text) × (sys.parse_url url ≡ some (scheme, host))
        × ((scheme ≡ first) ⊎ (scheme ≡ second))
  unfolding with_scheme
  with_scheme-ok kind first second id url host h = elim (Option-cases (sys.parse_url url)) [
    | inl bad ↦ absurd (ground arith)
    | inr ((scheme, found), parses) ↦ elim (Bool-cases (text_eq scheme first)) [
      | inl is_first ↦ (scheme, ground arith, inl ((text_eq_iff scheme first).0 is_first))
      | inr not_first ↦ elim (Bool-cases (text_eq scheme second)) [
        | inl is_second ↦ (scheme, ground arith, inr ((text_eq_iff scheme second).0 is_second))
        | inr neither ↦ absurd (ground arith)
      ]
    ]
  ]

  -- A URL that is expanded and then has its scheme checked
  both-IsUrl :
      (id field raw url kind first second host : Text)
      → expand_url sys id field raw ≡ ok url
      → with_scheme sys kind first second id url ≡ ok host
      → raw ≢ []
      → IsUrl raw url first second
  unfolding expand_url
  both-IsUrl id field raw url kind first second host h k given =
      let (expands, none_missing) =
        expanded-ok id field raw url (missing_from sys [] (sys.references raw)) h in
      let (scheme, parses, one) = with_scheme-ok kind first second id url host k in
      record {
        given = given;
        expands = expands;
        set = missing-none (sys.references raw) none_missing;
        scheme = scheme;
        host = host;
        parses = parses;
        one_of = one;
      }

  load_http-IsUrl :
      (id raw : Text)
      → OnOk (λ u. IsUrl raw u.0 (text "http") (text "https")) (load_http sys id raw)
  unfolding load_http
  load_http-IsUrl id [] = tt
  load_http-IsUrl id (c ∷ raw) =
      OnOk->>= _ (expand_url sys id (text "http") (c ∷ raw)) _ (λ url expands.
        OnOk->>= _ (with_scheme sys (text "HTTP") (text "http") (text "https") id url) _
          (λ host fits.
            both-IsUrl id (text "http") (c ∷ raw) url (text "HTTP") (text "http") (text "https")
              host expands fits (λ e. cc)))

  load_ws-IsUrl :
      (id raw : Text)
      → OnOk
          (λ u. ((raw ≡ []) × (u ≡ [])) ⊎ IsUrl raw u (text "ws") (text "wss"))
          (load_ws sys id raw)
  unfolding load_ws
  load_ws-IsUrl id [] = inl (refl, refl)
  load_ws-IsUrl id (c ∷ raw) =
      OnOk->>= _ (expand_url sys id (text "ws") (c ∷ raw)) _ (λ url expands.
        OnOk->>= _ (with_scheme sys (text "Websocket") (text "ws") (text "wss") id url) _
          (λ host fits. inr (
            both-IsUrl id (text "ws") (c ∷ raw) url (text "Websocket") (text "ws") (text "wss") host
              expands fits (λ e. cc))))

  load_provider-IsUsable :
      (endpoint : Text) (index : ℕ) (c : Configured)
      → OnOk (IsUsable c) (load_provider sys endpoint index c)
  unfolding load_provider
  load_provider-IsUsable endpoint index c =
      let id = provider_id sys endpoint index c.provider.name in
      OnOk->>= (IsUsable c) (load_http sys id c.provider.http) _ (λ u http.
        OnOk->>= (IsUsable c) (load_ws sys id c.provider.ws) _ (λ w ws. record {
          http =
              OnOk-ok _ (load_http sys id c.provider.http) u (load_http-IsUrl id c.provider.http)
                http;
          ws = OnOk-ok _ (load_ws sys id c.provider.ws) w (load_ws-IsUrl id c.provider.ws) ws;
          headers = expand_headers-map c.headers;
        }))

  load_providers-IsUsable :
      (endpoint : Text) (index : ℕ) (cs : List Configured)
      → OnOk (Pairs IsUsable cs) (load_providers sys endpoint index cs)
  unfolding load_providers
  load_providers-IsUsable endpoint index [] = tt
  load_providers-IsUsable endpoint index (c ∷ cs) =
      OnOk->>= _ (load_provider sys endpoint index c) _ (λ p one.
        OnOk->>= _ (load_providers sys endpoint (suc index) cs) _ (λ ps rest. (
          OnOk-ok _ (load_provider sys endpoint index c) p (load_provider-IsUsable endpoint index c)
              one,
          OnOk-ok _ (load_providers sys endpoint (suc index) cs) ps
              (load_providers-IsUsable endpoint (suc index) cs) rest,
        )))

  with_chain-IsLoaded :
      (globals : List Text) (s t : Section) (o : Option Chain)
      → new t.endpoint.kind ≡ o
      → s.providers ≡ t.providers
      → t.endpoint.auth_keys ≡ map (λ k. sys.expand sys.getenv k) s.endpoint.keys ++ globals
      → OnOk (IsLoaded globals s) (with_chain sys t o)
  unfolding with_chain
  with_chain-IsLoaded globals s t none e same keys = tt
  with_chain-IsLoaded globals s t (some c) e same keys =
      OnOk->>= _ (load_providers sys t.endpoint.name 0 t.providers) _ (λ ps loaded.
        OnOk->>= _ (validate_config c t.endpoint (map (λ p. p.provider) ps)) _ (λ u valid. record {
          chain = c;
          known = e;
          usable = rw same (
              OnOk-ok _ (load_providers sys t.endpoint.name 0 t.providers) ps
                (load_providers-IsUsable t.endpoint.name 0 t.providers) loaded);
          valid = valid;
          keys = keys;
        }))

  load_endpoint-IsLoaded :
      (globals : List Text) (name : Text) (s : Section)
      → OnOk (IsLoaded globals s) (load_endpoint sys globals name s)
  unfolding load_endpoint prepared
  load_endpoint-IsLoaded globals name s =
      let e = prepared sys globals name s.endpoint in
      with_chain-IsLoaded globals s (record s { endpoint = e }) (new e.kind) refl refl
        (ap (λ (ks : List Text). ks ++ globals) (expand_keys-map s.endpoint.keys))

  load_endpoints-IsLoaded :
      (globals : List Text) (sections : Dict Section)
      → OnOk
          (Pairs
            (λ given loaded. (loaded.0 ≡ given.0) × IsLoaded globals given.1 loaded.1)
            sections)
          (load_endpoints sys globals sections)
  unfolding load_endpoints
  load_endpoints-IsLoaded globals [] = tt
  load_endpoints-IsLoaded globals ((name, s) ∷ sections) =
      OnOk->>= _ (load_endpoint sys globals name s) _ (λ l one.
        OnOk->>= _ (load_endpoints sys globals sections) _ (λ ls rest. (
          (
            refl,
            OnOk-ok _ (load_endpoint sys globals name s) l (load_endpoint-IsLoaded globals name s)
                one,
          ),
          OnOk-ok _ (load_endpoints sys globals sections) ls
              (load_endpoints-IsLoaded globals sections) rest,
        )))

  -- A configuration that loads has the endpoints that were configured, under their names. Each is of a
  -- known kind and valid for its chain, and accepts its own keys and the global ones, all expanded. Its
  -- providers are the configured ones: each has an HTTP URL, which is the configured text expanded and
  -- parses with the scheme http or https, and either none for WebSockets, like the configured one, or
  -- one with the scheme ws or wss that is the configured text expanded; no environment variable that
  -- such a text refers to was unset or empty. The values of its headers are expanded.
  pub load_config-IsLoaded :
      (keys : List Text) (sections : Dict Section)
      → OnOk
          (Pairs
            (λ given loaded.
              (loaded.0 ≡ given.0)
              × IsLoaded (map (λ k. sys.expand sys.getenv k) keys) given.1 loaded.1)
            sections)
          (load_config sys keys sections)
  unfolding load_config
  load_config-IsLoaded keys sections =
      rw (expand_keys-map keys)
        (load_endpoints-IsLoaded (map (λ k. sys.expand sys.getenv k) keys) sections)
