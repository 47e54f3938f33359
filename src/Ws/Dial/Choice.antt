-- ===== src/Ws/Dial/Choice.antt =====
-- Which provider a WebSocket client gets (DialAnyProvider of internal/ws/ws.go).
use haprovider.Prelude.{
  ◌≡◌, refl, Bool, true, false, not, List, [], ◌∷◌, Option, none, some, ℤ, map, if◌then◌else◌,
  is_empty, Text,
}
use haprovider.Rpc.Error.{Error, no_providers_available}
use haprovider.Rpc.Batch.{Result, ok, err}
use haprovider.Core.Provider.{Provider}
use haprovider.Ws.Dial.{
  Handshake, connected, throttled, refused, Attempt, Dialled, dial_provider, behind, after_dial,
  dial_any,
}

-- What comes of an attempt: it is passed over or fails, the client goes away in it, or it connects.
pub data Try : Type 0 where
  next_one : Try
  client_gone : Error → Try
  connects : Provider → Try

of_handshake : Provider → Handshake → Try
of_handshake p connected = connects p
of_handshake p (throttled header) = next_one
of_handshake p (refused e) = next_one

of_context : Option Error → Try → Try
of_context none t = t
of_context (some gone) t = client_gone gone

pub tried : Attempt → Try
unfolding of_handshake of_context
tried a =
    if is_empty a.provider.ws
    then next_one
    else if not a.provider.online
    then next_one
    else of_context a.cancelled (of_handshake (a.during a.provider) a.handshake)

-- The first attempt that ends the search
pub first_end : List Try → Result Provider
first_end [] = err no_providers_available
first_end (next_one ∷ ts) = first_end ts
first_end (client_gone gone ∷ ts) = err gone
first_end (connects p ∷ ts) = ok p

abbrev pub is_ok : Result Provider → Bool
is_ok (ok p) = true
is_ok (err e) = false

-- The result is that of the first attempt that ends the search, and a connection is open exactly if
-- there is a provider to return.
pub record IsChosen (ts : List Try) (d : Dialled) : Type 0 where
  pub result : d.result ≡ first_end ts
  pub connection : d.connection ≡ is_ok d.result

after_dial-IsChosen :
    (show : ℤ → Text) (a : Attempt) (attempts : List Attempt) (rest : Dialled) (ts : List Try)
    (p : Provider) (c : Option Error) (h : Handshake)
    → IsChosen ts rest
    → IsChosen
        (of_context c (of_handshake p h) ∷ ts)
        (after_dial a attempts rest c (dial_provider show p h a.returned))
unfolding after_dial dial_provider of_context of_handshake first_end behind
after_dial-IsChosen show a attempts rest ts p (some gone) connected ih = record {
  result = refl;
  connection = refl;
}
after_dial-IsChosen show a attempts rest ts p (some gone) (throttled x) ih = record {
  result = refl;
  connection = refl;
}
after_dial-IsChosen show a attempts rest ts p (some gone) (refused e) ih = record {
  result = refl;
  connection = refl;
}
after_dial-IsChosen show a attempts rest ts p none connected ih = record {
  result = refl;
  connection = refl;
}
after_dial-IsChosen show a attempts rest ts p none (throttled x) ih = record {
  result = ih.result;
  connection = ih.connection;
}
after_dial-IsChosen show a attempts rest ts p none (refused e) ih = record {
  result = ih.result;
  connection = ih.connection;
}

passed-IsChosen :
    (p : Provider) (rest : Dialled) (ts : List Try)
    → IsChosen ts rest
    → IsChosen (next_one ∷ ts) (behind p rest)
unfolding behind first_end
passed-IsChosen p rest ts ih = record { result = ih.result; connection = ih.connection }

IsChosen-if :
    (b : Bool) (x y : Dialled) (t u : Try) (ts : List Try)
    → IsChosen (t ∷ ts) x
    → IsChosen (u ∷ ts) y
    → IsChosen ((if b then t else u) ∷ ts) (if b then x else y)
IsChosen-if true x y t u ts hx hy = hx
IsChosen-if false x y t u ts hx hy = hy

-- A new client gets the first provider with a WebSocket URL that is online when it is reached and
-- whose handshake succeeds, unless the client goes away before. The connection is left open only if
-- that provider is returned: one that is made too late is closed.
pub dial_any-IsChosen :
    (show : ℤ → Text) (attempts : List Attempt)
    → IsChosen (map tried attempts) (dial_any show attempts)
unfolding dial_any first_end tried
dial_any-IsChosen show [] = record { result = refl; connection = refl }
dial_any-IsChosen show (a ∷ attempts) =
    let ih = dial_any-IsChosen show attempts in
    let rest = dial_any show attempts in
    let passed = passed-IsChosen a.provider rest (map tried attempts) ih in
    IsChosen-if (is_empty a.provider.ws) _ _ next_one _ (map tried attempts) passed (
      IsChosen-if (not a.provider.online) _ _ next_one _ (map tried attempts) passed (
        after_dial-IsChosen show a attempts rest (map tried attempts) (a.during a.provider)
          a.cancelled a.handshake ih))
