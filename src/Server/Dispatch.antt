-- ===== src/Server/Dispatch.antt =====
-- requestHandler of cmd/haprovider/main.go.
pub mod Reach
use haprovider.Prelude.{
  Bool, true, false, not, List, [], ◌∷◌, ◌++◌, Option, none, some, if◌then◌else◌, is_empty, Text,
  text, text_eq, Dict, lookup, insert,
}
use haprovider.Prelude.Outcome.{Outcome, done, ◌>>=◌}
use haprovider.Core.Provider.{Provider}
use haprovider.Core.Endpoint.{Endpoint, Kind}
use haprovider.Server.{Incoming, Answer, answer, http_error}
use haprovider.Server.Auth.{authenticate}

-- An endpoint with its providers
pub record Site : Type 0 where
  pub endpoint : Endpoint
  pub providers : List Provider

abbrev is_tron : Kind → Bool
is_tron Kind.tron = true
is_tron _ = false

-- The call in which the handler ends, with the headers set so far, or its own answer
pub data Route : Type 0 where
  answered : Answer → Route
  to_http_api to_websocket to_rpc : Site → Dict Text → Route

-- The loop that sets hasWebsocketProvider
unfoldable pub has_websocket_provider : List Provider → Bool
has_websocket_provider [] = false
has_websocket_provider (p ∷ ps) =
    let rest = has_websocket_provider ps in if not (is_empty p.ws) then true else rest

by_transport : Site → Dict Text → Incoming → Route
unfolding text text_eq has_websocket_provider
by_transport site headers i =
    if not (is_empty i.path)
    then if is_tron site.endpoint.kind
      then to_http_api site headers
      else answered (answer 404 headers [])
    else if text_eq (i.header (text "Upgrade")) (text "websocket")
    then if has_websocket_provider site.providers
      then to_websocket site headers
      else answered (answer 404 headers [])
    else to_rpc site headers

at_site : Dict Text → Incoming → Option Site → Route
unfolding by_transport authenticate insert text
at_site headers i none = answered (answer 404 headers [])
at_site headers i (some site) =
    if not (authenticate site.endpoint i.header)
    then answered (
        http_error 401 (insert (text "WWW-Authenticate") (text "Bearer") headers)
          (text "unauthorized"))
    else by_transport site headers i

-- requestHandler, for the configured endpoints and the version of the program
unfoldable pub route : Dict Site → Text → Incoming → Route
unfolding at_site lookup insert text
route sites version i =
    at_site (insert (text "Server") (text "haprovider/" ++ version) []) i (lookup i.id sites)
