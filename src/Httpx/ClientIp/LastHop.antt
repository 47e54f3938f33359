-- ===== src/Httpx/ClientIp/LastHop.antt =====
-- The last entry of the X-Forwarded-For chain (internal/httpx/httpx.go).
use haprovider.Prelude.{◌≡◌, refl, Bool, true, [], ◌∷◌, Option, Text, text, arith}
use haprovider.Prelude.Split.{split, lacks, last, split-lacks, last-split, trim_space-lacks}
use haprovider.Httpx.ClientIp.{before_comma, from_remote, client_ip, forwarded_for}

abbrev no_comma : Text → Bool
no_comma = lacks b','

before_comma-no_comma : (s : Text) → no_comma (before_comma s) ≡ true
unfolding before_comma
before_comma-no_comma [] = refl
before_comma-no_comma (c ∷ s) = ground (arith, before_comma-no_comma s)

module _ (split_host_port : Text → Option Text) where
  -- A host has no comma, and neither has an address that is no host with a port.
  abbrev pub HasPlainHost : Text → Type 0
  HasPlainHost remote_addr = no_comma (from_remote split_host_port remote_addr) ≡ true

  client_ip-no_comma :
      (real_ip_header : Text) (header : Text → Text) (remote_addr : Text)
      → HasPlainHost remote_addr
      → no_comma (client_ip split_host_port real_ip_header header remote_addr) ≡ true
  unfolding client_ip
  client_ip-no_comma real_ip_header header remote_addr plain = ground (
    arith,
    plain,
    trim_space-lacks b',' (before_comma (header real_ip_header))
        (before_comma-no_comma (header real_ip_header)),
  )

  -- Where the host of the connection has no comma, the last entry of the X-Forwarded-For chain that
  -- goes to a provider is the client address that ClientIP finds, whatever chain the client sent.
  pub last-forwarded_for :
      (real_ip_header : Text) (header : Text → Text) (remote_addr : Text)
      → HasPlainHost remote_addr
      → last (split b',' (forwarded_for split_host_port real_ip_header header remote_addr))
        ≡ client_ip split_host_port real_ip_header header remote_addr
  unfolding forwarded_for last
  last-forwarded_for real_ip_header header remote_addr plain = ground (
    arith,
    last-split b',' (header (text "X-Forwarded-For"))
        (client_ip split_host_port real_ip_header header remote_addr),
    split-lacks b',' (client_ip split_host_port real_ip_header header remote_addr),
    client_ip-no_comma real_ip_header header remote_addr plain,
  )
