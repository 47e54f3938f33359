-- ===== src/Server/HttpApi.antt =====
-- The native HTTP API of TRON nodes in internal/http.go: which paths are forwarded, and to which URL.
-- url.PathEscape is a parameter.
pub mod Climb
pub mod Loop
use haprovider.Prelude.{
  ℕ, Bool, true, false, not, ◌&&◌, ◌||◌, List, [], ◌∷◌, ◌++◌, map, ltb, ◌==◌, ◌-◌, if◌then◌else◌,
  is_empty, take, length, Text, text, text_eq, has_prefix, has_suffix, join,
}
use haprovider.Prelude.Split.{split}

unfoldable pub http_api_prefixes : List Text
unfolding text
http_api_prefixes = text "wallet/" ∷ text "walletsolidity/" ∷ text "walletpbft/" ∷ []

-- The first loop of allowedHTTPAPIPath
plain_segments : List Text → Bool
unfolding text text_eq
plain_segments [] = true
plain_segments (s ∷ ss) =
    let rest = plain_segments ss in
    if is_empty s || (text_eq s (text ".") || text_eq s (text "..")) then false else rest

-- Its second loop
has_api_prefix : Text → List Text → Bool
unfolding has_prefix
has_api_prefix path [] = false
has_api_prefix path (p ∷ ps) =
    let rest = has_api_prefix path ps in
    if has_prefix path p && ltb (length p) (length path) then true else rest

-- allowedHTTPAPIPath
unfoldable pub allowed_http_api_path : Text → Bool
unfolding plain_segments has_api_prefix split http_api_prefixes
allowed_http_api_path path =
    if plain_segments (split b'/' path) then has_api_prefix path http_api_prefixes else false

-- escapePath
unfoldable pub escape_path : (Text → Text) → Text → Text
unfolding split join
escape_path escape path = join (b'/' ∷ []) (map escape (split b'/' path))

-- strings.TrimSuffix(s, suffix)
unfoldable pub trim_suffix : Text → Text → Text
unfolding has_suffix
trim_suffix s suffix = if has_suffix s suffix then take (length s - length suffix) s else s

-- The URL that a request is forwarded to
unfoldable pub target : (Text → Text) → Text → Text → Text → Text
unfolding trim_suffix escape_path text
target escape http path raw_query =
    let url = trim_suffix http (text "/jsonrpc") ++ b'/' ∷ escape_path escape path in
    if not (is_empty raw_query) then url ++ b'?' ∷ raw_query else url
