-- ===== src/Failover/Loop/Total.antt =====
-- forwardWithFailover does not panic (internal/http.go), if no provider sends a null for a response.
use haprovider.Prelude.{ℕ, ◌≡◌, refl, List, [], ◌∷◌, Option, none, some}
use haprovider.Prelude.Outcome.{Outcome, done, panicked, Ends, Ends->>=}
use haprovider.Rpc.Json.{Json}
use haprovider.Rpc.Batch.{Result}
use haprovider.Rpc.Batch.Total.{IsFilled}
use haprovider.Httpx.Total.{NoNulls}
use haprovider.Chain.{Chain, new}
use haprovider.Metrics.Labels.{Labels}
use haprovider.Failover.Visit.{Job, Visit, Forward, Vars, After, visit}
use haprovider.Failover.Visit.Total.{AnyEnd, Ends-visit}
use haprovider.Failover.Loop.{
  Left, Ended, leave, behind, advance, loop, start, finish, forward_with_failover,
}

module _ (json : Json) where
  Ends-leave :
      (vs : List Visit) (rest : Vars → Outcome Left) (a : After) (r : Option (Result Forward))
      → Ends AnyEnd (rest a.vars)
      → Ends AnyEnd (leave json vs rest a r)
  unfolding leave
  Ends-leave vs rest a (some r) h = tt
  Ends-leave vs rest a none h =
      Ends->>= AnyEnd AnyEnd (rest a.vars) (λ l. done (behind json a.provider l)) h (λ l u. tt)

  Ends-advance :
      (vs : List Visit) (rest : Vars → Outcome Left) (o : Outcome After)
      → Ends AnyEnd o
      → ((vars : Vars) → Ends AnyEnd (rest vars))
      → Ends AnyEnd (advance json vs rest o)
  unfolding advance
  Ends-advance vs rest panicked h k = absurd h
  Ends-advance vs rest (done a) h k = Ends-leave vs rest a a.returns (k a.vars)

  module _ (filled : IsFilled json) (job : Job) {c : Chain}
      (known : new job.endpoint.kind ≡ some c) where
    -- No provider sends a null for a response.
    abbrev pub AllClean : List Visit → Type 0
    AllClean [] = Unit
    AllClean (v ∷ vs) = NoNulls json job.show job.endpoint v.upstream × AllClean vs

    Ends-loop : (vs : List Visit) (vars : Vars) → AllClean vs → Ends AnyEnd (loop json job vs vars)
    unfolding loop
    Ends-loop [] vars clean = tt
    Ends-loop (v ∷ vs) vars clean =
        Ends-advance vs (loop json job vs) (visit json job v vars)
          (Ends-visit json filled job known v vars clean.0) (λ vars'. Ends-loop vs vars' clean.1)

    Ends-done : (o : Outcome Ended) → Ends AnyEnd o → (e : Ended) × (o ≡ done e)
    Ends-done (done e) h = (e, refl)
    Ends-done panicked h = absurd h

    -- For an endpoint of a known kind, and where no provider answers with an array of responses that
    -- has a null in it, forwardWithFailover does not panic: it returns, with a response or an error.
    pub forward_with_failover-done :
        (vs : List Visit) (labels : Labels) (now : ℕ)
        → AllClean vs
        → (e : Ended) × (forward_with_failover json job vs labels now ≡ done e)
    unfolding forward_with_failover
    forward_with_failover-done vs labels now clean =
        Ends-done (forward_with_failover json job vs labels now) (
          Ends->>= AnyEnd AnyEnd (loop json job vs (start json labels))
            (λ l. done (finish json job now l)) (Ends-loop vs (start json labels) clean)
            (λ l u. tt))
