-- ===== src/Failover/Loop/Order.antt =====
-- The order in which forwardWithFailover goes through the providers (internal/http.go).
use haprovider.Prelude.{ℕ, ◌≡◌, refl, false, List, [], ◌∷◌, ◌++◌, none, some}
use haprovider.Prelude.Outcome.{Outcome, done}
use haprovider.Rpc.Error.{no_providers_available}
use haprovider.Rpc.Json.{Json}
use haprovider.Rpc.Batch.{Result, err}
use haprovider.Core.Provider.{Provider}
use haprovider.Metrics.Labels.{Labels}
use haprovider.Failover.Visit.{Job, Visit, Forward, Vars, After, visit}
use haprovider.Failover.Visit.Lost.{visit-offline}
use haprovider.Failover.Loop.{
  Left, untouched, leave, advance, loop, start, exhausted, forward_with_failover,
}

abbrev pub AllOffline : List Visit → Type 0
AllOffline [] = Unit
AllOffline (v ∷ vs) = (v.provider.online ≡ false) × AllOffline vs

module _ (json : Json) (job : Job) where
  -- Each of these providers is visited in turn and leaves the request to the next: the providers
  -- after their visits, and the variables of the loop.
  pub data GoesOn : List Visit → Vars → List Provider → Vars → Type 0 where
    none_left : {vars : Vars} → GoesOn [] vars [] vars
    next :
        {v : Visit} {vs : List Visit} {vars last : Vars} {ps : List Provider} {a : After}
        → visit json job v vars ≡ done a
        → a.returns ≡ none
        → GoesOn vs a.vars ps last
        → GoesOn (v ∷ vs) vars (a.provider ∷ ps) last

  advance-stops :
      (vs : List Visit) (rest : Vars → Outcome Left) (o : Outcome After) {a : After}
      {r : Result Forward}
      → o ≡ done a
      → a.returns ≡ some r
      → advance json vs rest o
        ≡ done
            (record { providers = a.provider ∷ untouched json vs; vars = a.vars; returns = some r })
  unfolding advance
  advance-stops vs rest o seen gives = rw (seen, advance, gives) refl

  advance-goes_on :
      (vs : List Visit) (rest : Vars → Outcome Left) (o : Outcome After) {a : After} {l : Left}
      → o ≡ done a
      → a.returns ≡ none
      → rest a.vars ≡ done l
      → advance json vs rest o ≡ done (record l { providers = a.provider ∷ l.providers })
  unfolding advance
  advance-goes_on vs rest o seen on more = rw (seen, advance, on, leave, more) refl

  loop-served :
      {before : List Visit} {vars at : Vars} {ps : List Provider} (v : Visit)
      (behind_it : List Visit) {a : After} {r : Result Forward}
      → GoesOn before vars ps at
      → visit json job v at ≡ done a
      → a.returns ≡ some r
      → loop json job (before ++ v ∷ behind_it) vars
        ≡ done (record {
          providers = ps ++ a.provider ∷ untouched json behind_it;
          vars = a.vars;
          returns = some r;
        })
  unfolding loop
  loop-served v behind_it none_left seen gives = advance-stops behind_it _ _ seen gives
  loop-served v behind_it (next here on rest) seen gives =
      advance-goes_on _ _ _ here on (loop-served v behind_it rest seen gives)

  loop-exhausted :
      {vs : List Visit} {vars last : Vars} {ps : List Provider}
      → GoesOn vs vars ps last
      → loop json job vs vars ≡ done (record { providers = ps; vars = last; returns = none })
  unfolding loop
  loop-exhausted none_left = refl
  loop-exhausted (next here on rest) = advance-goes_on _ _ _ here on (loop-exhausted rest)

  offline-GoesOn :
      (vs : List Visit) (vars : Vars) → AllOffline vs → GoesOn vs vars (untouched json vs) vars
  offline-GoesOn [] vars h = none_left
  offline-GoesOn (v ∷ vs) vars h =
      next (visit-offline json job v vars h.0) refl (offline-GoesOn vs vars h.1)

  -- The providers are tried in the order of the configuration: where those before a provider leave
  -- the request to the next one, and its visit gives a result, that is the result, and no provider
  -- behind it is touched.
  pub forward_with_failover-first :
      {before : List Visit} {at : Vars} {ps : List Provider} (v : Visit) (behind_it : List Visit)
      (labels : Labels) (now : ℕ) {a : After} {r : Result Forward}
      → GoesOn before (start json labels) ps at
      → visit json job v at ≡ done a
      → a.returns ≡ some r
      → forward_with_failover json job (before ++ v ∷ behind_it) labels now
        ≡ done (record {
          providers = ps ++ a.provider ∷ untouched json behind_it;
          labels = a.vars.labels;
          result = r;
        })
  unfolding forward_with_failover
  forward_with_failover-first v behind_it labels now before seen gives =
      rw (loop-served v behind_it before seen gives) refl

  -- With every provider offline none is called or changed, and the result is that no providers are
  -- available.
  pub forward_with_failover-offline :
      (vs : List Visit) (labels : Labels) (now : ℕ)
      → AllOffline vs
      → forward_with_failover json job vs labels now
        ≡ done (record {
          providers = untouched json vs;
          labels = labels;
          result = err no_providers_available;
        })
  unfolding forward_with_failover exhausted
  forward_with_failover-offline vs labels now off =
      rw (loop-exhausted (offline-GoesOn vs (start json labels) off)) refl
