-- ===== src/Examples/Proxying.antt =====
-- The native HTTP API and the addresses of clients.
use haprovider.Prelude.{
  ℕ, ◌⊎◌, ◌≡◌, refl, inl, inr, true, false, List, [], ◌∷◌, Option, none, some, Text, text, text_eq,
  if◌then◌else◌, has_prefix, lookup, ◌++◌, ◌==◌, arith,
}
use haprovider.Prelude.Split.{split, lacks}
use haprovider.Core.Endpoint.{Endpoint, Kind, fresh_endpoint}
use haprovider.Httpx.ClientIp.{from_remote}
use haprovider.Httpx.Forward.{Fetched, fetched, forward_headers}
use haprovider.Httpx.Headers.{send_headers, dial_headers}
use haprovider.Httpx.Headers.Sent.{sent_value, lookup-headers}
use haprovider.Server.{Incoming}
use haprovider.Server.HttpApi.{allowed_http_api_path, escape_path, http_api_prefixes}
use haprovider.Server.HttpApi.Climb.{IsEscape, StaysBelow, escape_path-StaysBelow}
use haprovider.Server.HttpApi.Loop.{Setup, ApiVisit}
use haprovider.Examples.Failovers.{up}

abbrev block_path : Text
block_path = text "wallet/getnowblock"

abbrev any_header : Text → Text
any_header name = if text_eq name (text "X-Forwarded-For") then text "1.2.3.4" else []

abbrev get_block : Incoming
get_block = record {
  id = text "tron";
  path = block_path;
  method = text "GET";
  raw_query = [];
  remote_addr = text "10.0.0.1:7";
  header = any_header;
  body = [];
  broken = none;
}

abbrev host_of : Text → Option Text
host_of addr = some (text "10.0.0.1")

plain_host : lacks b',' (from_remote host_of (text "10.0.0.1:7")) ≡ true
unfolding from_remote text
plain_host = refl

allowed : allowed_http_api_path block_path ≡ true
unfolding allowed_http_api_path split http_api_prefixes has_prefix text text_eq
allowed = refl

-- An escape of four bytes, each as a percent sign and a digit, and its inverse
abbrev escape_byte : ℕ → Text
escape_byte c =
    if c == b'%'
    then b'%' ∷ b'0' ∷ []
    else if c == b'/'
    then b'%' ∷ b'1' ∷ []
    else if c == b'?'
    then b'%' ∷ b'2' ∷ []
    else if c == b'#'
    then b'%' ∷ b'3' ∷ []
    else c ∷ []

escape : Text → Text
escape [] = []
escape (c ∷ s) = escape_byte c ++ escape s

abbrev byte_of : ℕ → ℕ
byte_of d = if d == b'0' then b'%' else if d == b'1' then b'/' else if d == b'2' then b'?' else b'#'

unescape : Text → Text
unescape [] = []
unescape (c ∷ []) = c ∷ []
unescape (c ∷ d ∷ s) =
    let pair = byte_of d ∷ unescape s in
    let rest = unescape (d ∷ s) in if c == b'%' then pair else c ∷ rest

unescape-plain : (c : ℕ) (t : Text) → (c == b'%') ≡ false → unescape (c ∷ t) ≡ c ∷ unescape t
unfolding unescape
unescape-plain c [] h = refl
unescape-plain c (d ∷ t) h = rw h refl

unescape-escape : (s : Text) → unescape (escape s) ≡ s
unfolding unescape escape
unescape-escape [] = refl
unescape-escape (c ∷ s) = ground (arith, unescape-escape s, unescape-plain c (escape s))

unescape-lacks : (s : Text) → lacks b'%' s ≡ true → unescape s ≡ s
unfolding unescape
unescape-lacks [] h = refl
unescape-lacks (c ∷ s) h = ground (arith, unescape-lacks s, unescape-plain c s)

escape-lacks :
    (sep : ℕ)
    → (sep ≡ b'/') ⊎ (sep ≡ b'?') ⊎ (sep ≡ b'#')
    → (s : Text) → lacks sep (escape s) ≡ true
unfolding escape
escape-lacks sep one [] = refl
escape-lacks sep one (c ∷ s) = ground (arith, escape-lacks sep one s)

escape-IsEscape : IsEscape escape unescape
escape-IsEscape = record {
  undone = unescape-escape;
  unchanged = unescape-lacks;
  no_slash = escape-lacks b'/' (inl refl);
  no_query = escape-lacks b'?' (inr (inl refl));
  no_fragment = escape-lacks b'#' (inr (inr refl));
}

escape_path-StaysBelow_example : StaysBelow escape-IsEscape (escape_path escape block_path)
escape_path-StaysBelow_example = escape_path-StaysBelow escape-IsEscape block_path allowed

abbrev setup : Setup
setup = record {
  escape = escape;
  canonical = λ s. s;
  split_host_port = host_of;
  show = λ d. [];
  user_agent = text "haprovider/1.0";
  real_ip_header = [];
}

abbrev tron_visit : Text → Fetched → ApiVisit
tron_visit name f = record {
  provider = up name;
  own_headers = [];
  fetch = λ request. f;
  during = λ p. p;
  returned = 11;
  left = false;
}

abbrev api_visits : List ApiVisit
api_visits =
    tron_visit (text "broken") (fetched 502 [] [] (text "bad") none)
    ∷ tron_visit (text "good") (fetched 200 [] (text "application/json") (text "{}") none)
    ∷ []

abbrev tron : Endpoint
tron = fresh_endpoint (text "tron") Kind.tron

abbrev own_headers : List (Text × Text)
own_headers = (text "User-Agent", text "mine") ∷ (text "X-Api-Key", text "k") ∷ []

lookup-headers_example :
    (lookup (text "User-Agent") (send_headers (λ k. k) own_headers (text "v1") (text "1.2.3.4"))
      ≡ sent_value
          (λ k. k)
          (some (text "application/json; charset=utf-8"))
          own_headers
          (text "v1")
          (text "1.2.3.4")
          (text "User-Agent"))
    × (lookup
          (text "User-Agent")
          (forward_headers (λ k. k) own_headers (text "v1") [] (text "1.2.3.4"))
        ≡ sent_value
            (λ k. k)
            (some (text "application/json; charset=utf-8"))
            own_headers
            (text "v1")
            (text "1.2.3.4")
            (text "User-Agent"))
    × (lookup (text "User-Agent") (dial_headers (λ k. k) own_headers (text "v1") (text "1.2.3.4"))
        ≡ sent_value (λ k. k) none own_headers (text "v1") (text "1.2.3.4") (text "User-Agent"))
lookup-headers_example =
    lookup-headers (λ k. k) own_headers (text "v1") [] (text "1.2.3.4") (text "User-Agent")
