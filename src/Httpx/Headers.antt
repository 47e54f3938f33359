-- ===== src/Httpx/Headers.antt =====
-- The headers of what goes to a provider: SendHTTPRequest of internal/httpx/httpx.go and DialProvider
-- of internal/ws/ws.go; those of ForwardHTTPRequest are in Httpx/Forward. A provider's own headers
-- come in the order of the loop over the map; `canonical` is textproto.CanonicalMIMEHeaderKey.
pub mod Sent
use haprovider.Prelude.{List, [], Text, text, Dict, insert}
use haprovider.Httpx.ClientIp.{set_forwarded_for}
use haprovider.Httpx.Forward.{set_all}

module _ (canonical : Text → Text) where
  -- SendHTTPRequest, for the headers of the provider, the version and what the context carries
  unfoldable pub send_headers : List (Text × Text) → Text → Text → Dict Text
  unfolding set_all insert text set_forwarded_for
  send_headers own user_agent carried = set_forwarded_for carried (
      insert (text "Content-Type") (text "application/json; charset=utf-8")
        (insert (text "User-Agent") user_agent (set_all canonical own [])))

  -- DialProvider
  unfoldable pub dial_headers : List (Text × Text) → Text → Text → Dict Text
  unfolding set_all insert text set_forwarded_for
  dial_headers own user_agent carried =
      set_forwarded_for carried (insert (text "User-Agent") user_agent (set_all canonical own []))
