-- ===== src/Httpx/ClientIp.antt =====
-- The client address of a request, and the X-Forwarded-For chain (internal/httpx/httpx.go).
-- net.SplitHostPort is a parameter: the host of an address, if it has a port.
pub mod LastHop
use haprovider.Prelude.{
  Bool, true, false, not, ◌&&◌, List, [], ◌∷◌, ◌++◌, Option, none, some, ◌==◌, if◌then◌else◌,
  is_empty, Text, text, text_eq, to_lower, trim_space, Dict, insert,
}

-- v[:i] for the index i of the first comma, or v if it has none
unfoldable pub before_comma : Text → Text
before_comma [] = []
before_comma (c ∷ s) = let rest = before_comma s in if c == b',' then [] else c ∷ rest

module _ (split_host_port : Text → Option Text) where
  unfoldable pub from_remote : Text → Text
  from_remote remote_addr = elim (split_host_port remote_addr) [
    | none ↦ remote_addr
    | some host ↦ host
  ]

  -- ClientIP, for the configured RealIPHeader, the headers and RemoteAddr
  unfoldable pub client_ip : Text → (Text → Text) → Text → Text
  unfolding before_comma trim_space from_remote
  client_ip real_ip_header header remote_addr =
      if not (is_empty real_ip_header) && not (is_empty (header real_ip_header))
      then trim_space (before_comma (header real_ip_header))
      else from_remote remote_addr

  -- ForwardedFor. EqualFold with an ASCII text that has no k and no s compares in lower case.
  unfoldable pub forwarded_for : Text → (Text → Text) → Text → Text
  unfolding client_ip text text_eq to_lower
  forwarded_for real_ip_header header remote_addr =
      if not (is_empty (header (text "X-Forwarded-For")))
        && not (text_eq (to_lower real_ip_header) (text "x-forwarded-for"))
      then header (text "X-Forwarded-For") ++ b',' ∷ client_ip real_ip_header header remote_addr
      else client_ip real_ip_header header remote_addr

-- SetForwardedFor: what the context carries, "" if it carries nothing
unfoldable pub set_forwarded_for : Text → Dict Text → Dict Text
unfolding text insert
set_forwarded_for carried headers =
    if is_empty carried then headers else insert (text "X-Forwarded-For") carried headers
