-- ===== src/Ws/Handler/Balance.antt =====
-- Connections are counted while they are open, and no longer (internal/ws/ws.go and shutdown.go).
use haprovider.Prelude.{
  ◌≡◌, refl, inl, inr, Bool, true, false, not, List, Option, none, some, ℤ, Bool-cases,
  Option-cases, Text, Dict, arith,
}
use haprovider.Prelude.Outcome.{Outcome, done, panicked, ◌>>=◌}
use haprovider.Rpc.Json.{Json}
use haprovider.Rpc.Batch.{Result, ok, err}
use haprovider.Core.Provider.{Provider}
use haprovider.Server.{Answer}
use haprovider.Ws.Tracker.{Tracker, add, release}
use haprovider.Ws.Tracker.Count.{release-add, add-refused}
use haprovider.Ws.Pump.{Act}
use haprovider.Ws.Handler.{
  Ran, Setting, watch, unregistered, upgraded, registered, incoming_websocket,
}

-- The number of connections, where the handler has returned
abbrev pub Leaves : ℤ → Outcome (Option Ran) → Type 0
Leaves n (done (some r)) = r.tracker.n ≡ n
Leaves n (done none) = Unit
Leaves n panicked = Unit

module _ (json : Json) (headers : Dict Text) where
  unregistered-Leaves :
      (t u : Tracker) (acts : List Act) (a : Answer)
      → (add t).1 ≡ true
      → u.n ≡ (add t).0.n
      → Leaves t.n (unregistered json headers acts a u >>= λ r. done (some r))
  unfolding unregistered
  unregistered-Leaves t u acts a added same = of_release (release u) refl
    where
      of_release :
          (o : Outcome Tracker)
          → release u ≡ o
          → Leaves t.n (
              (o >>= λ v. done (record { tracker = v; answer = a; acts = acts })) >>= λ r.
              done (some r))
      of_release panicked e = tt
      of_release (done v) e = release-add t u v added same e

  upgraded-Leaves :
      (s : Setting) (t u : Tracker)
      → (add t).1 ≡ true
      → u.n ≡ (add t).0.n
      → Leaves t.n (upgraded json headers s u)
  unfolding upgraded
  upgraded-Leaves s t u added same = elim (Bool-cases (not s.upgrades)) [
    | inl fails ↦ rw fails (unregistered-Leaves t u _ _ added same)
    | inr upgrades ↦ rw upgrades (elim (Option-cases (watch s.on_primary s.events)) [
      | inl waits ↦ rw waits tt
      | inr (acts, ends) ↦ rw ends (unregistered-Leaves t u _ _ added same)
    ])
  ]

  -- If the other goroutines leave the number of counted connections as it is, then the handler does
  -- too, whenever it returns: where dialling fails, where a shutdown has begun, where the upgrade
  -- fails and where the connection ends.
  pub incoming_websocket-Leaves :
      (s : Setting) (t : Tracker) (result : Result Provider)
      → ((u v : Tracker) → s.during u ≡ done v → v.n ≡ u.n)
      → Leaves t.n (incoming_websocket json headers s t result)
  unfolding incoming_websocket registered
  incoming_websocket-Leaves s t (err e) steady = ground arith
  incoming_websocket-Leaves s t (ok p) steady = of_add (add t).1 refl
    where
      of_during :
          (o : Outcome Tracker)
          → s.during (add t).0 ≡ o
          → (add t).1 ≡ true
          → Leaves t.n (o >>= λ u. upgraded json headers s u)
      of_during panicked e added = tt
      of_during (done u) e added = upgraded-Leaves s t u added (steady (add t).0 u e)

      of_add : (b : Bool) → (add t).1 ≡ b → Leaves t.n (registered json headers s ((add t).0, b))
      of_add true e = of_during (s.during (add t).0) refl e
      of_add false e = add-refused t e
