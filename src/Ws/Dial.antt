-- ===== src/Ws/Dial.antt =====
-- DialProvider and DialAnyProvider of internal/ws/ws.go: the search for a provider for a new client.
-- What dialling comes to is an argument; headers, timings and logs are left out.
pub mod Choice
use haprovider.Prelude.{
  ℕ, Bool, true, false, not, List, [], ◌∷◌, Option, none, some, ℤ, if◌then◌else◌, is_empty, Text,
}
use haprovider.Rpc.Error.{Error, no_providers_available}
use haprovider.Rpc.Batch.{Result, ok, err}
use haprovider.Core.Provider.{Provider, handle_too_many_requests}
use haprovider.Failover.Visit.{lose_if_online}

-- A handshake: it succeeds, fails with an answer of status 429 with its Retry-After, or fails otherwise.
pub data Handshake : Type 0 where
  connected : Handshake
  throttled : Text → Handshake
  refused : Error → Handshake

-- A provider as the loop meets it, the handshake, what other goroutines do to its state meanwhile,
-- the time after it, and the error of the client's context by then, if it is done.
pub record Attempt : Type 0 where
  pub provider : Provider
  pub handshake : Handshake
  pub during : Provider → Provider
  pub returned : ℕ
  pub cancelled : Option Error

-- DialProvider, from the handshake on: `none` is the nil error.
unfoldable pub dial_provider : (ℤ → Text) → Provider → Handshake → ℕ → Provider × Option Error
unfolding handle_too_many_requests
dial_provider show p connected now = (p, none)
dial_provider show p (throttled header) now =
    (let (q, e) = handle_too_many_requests show p (some header) now in (q, some e))
dial_provider show p (refused e) now = (p, some e)

-- How the loop ends: the providers, what is returned, and whether a connection to a provider is open.
pub record Dialled : Type 0 where
  pub providers : List Provider
  pub result : Result Provider
  pub connection : Bool

untouched : List Attempt → List Provider
untouched [] = []
untouched (a ∷ attempts) = a.provider ∷ untouched attempts

behind : Provider → Dialled → Dialled
behind p d = record d { providers = p ∷ d.providers }

-- What follows the call of DialProvider: a connection that nobody will use is closed.
after_dial : Attempt → List Attempt → Dialled → Option Error → Provider × Option Error → Dialled
unfolding behind untouched lose_if_online
after_dial a attempts rest (some gone) (p, r) = record {
  providers = p ∷ untouched attempts;
  result = err gone;
  connection = false;
}
after_dial a attempts rest none (p, some e) = behind (lose_if_online p e a.returned) rest
after_dial a attempts rest none (p, none) = record {
  providers = p ∷ untouched attempts;
  result = ok p;
  connection = true;
}

-- DialAnyProvider
unfoldable pub dial_any : (ℤ → Text) → List Attempt → Dialled
unfolding after_dial dial_provider behind
dial_any show [] = record {
  providers = [];
  result = err no_providers_available;
  connection = false;
}
dial_any show (a ∷ attempts) =
    let rest = dial_any show attempts in
    let dialled = dial_provider show (a.during a.provider) a.handshake a.returned in
    if is_empty a.provider.ws
    then behind a.provider rest
    else if not a.provider.online
    then behind a.provider rest
    else after_dial a attempts rest a.cancelled dialled
