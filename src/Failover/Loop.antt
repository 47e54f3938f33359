-- ===== src/Failover/Loop.antt =====
-- forwardWithFailover of internal/http.go: the loop over the providers and what follows it.
pub mod Served
pub mod Order
pub mod Missing
pub mod Total
use haprovider.Prelude.{
  ℕ, Bool, true, false, not, ◌&&◌, List, [], ◌∷◌, ◌++◌, map, Option, none, some, if◌then◌else◌,
  Text, text_eq, member,
}
use haprovider.Prelude.Outcome.{Outcome, done, panicked, ◌>>=◌}
use haprovider.Rpc.Error.{Error, no_providers_available, request_too_large, no_provider_for_method}
use haprovider.Rpc.Message.{Request}
use haprovider.Rpc.Json.{Json}
use haprovider.Rpc.Batch.{Result, ok, err}
use haprovider.Core.Provider.{Provider, supports_method}
use haprovider.Metrics.Labels.{Labels}
use haprovider.Failover.Visit.{Job, Visit, Forward, Vars, After, visit}

-- The inner loop of methodsWithoutProvider: the first provider that supports the method ends it.
any_supports : List Provider → Text → ℕ → List Provider × Bool
any_supports [] method now = ([], false)
any_supports (p ∷ ps) method now =
    let (q, fine) = supports_method p method now in
    let (qs, found) = any_supports ps method now in if fine then (q ∷ ps, true) else (q ∷ qs, found)

-- The loop of methodsWithoutProvider: the providers, and the methods that none supports.
missing_from : List Provider → List Request → List Text → ℕ → List Provider × List Text
unfolding any_supports member
missing_from ps [] seen now = (ps, [])
missing_from ps (r ∷ rs) seen now =
    let again = missing_from ps rs seen now in
    let (qs, supported) = any_supports ps r.method now in
    let (last, missing) = missing_from qs rs (r.method ∷ seen) now in
    if member r.method seen
    then again
    else (last, if supported then missing else r.method ∷ missing)

unfoldable pub methods_without_provider :
    List Provider → List Request → ℕ → List Provider × List Text
unfolding missing_from
methods_without_provider ps reqs now = missing_from ps reqs [] now

-- All providers as the function leaves them, the labels, and its result.
pub record Ended : Type 0 where
  pub providers : List Provider
  pub labels : Labels
  pub result : Result Forward

-- What is returned when the methods are supported somewhere
fall_back : Bool → Option Forward → Result Forward
fall_back true kept = err request_too_large
fall_back false none = err no_providers_available
fall_back false (some f) = ok f

on_missing : Vars → List Provider × List Text → Ended
unfolding fall_back
on_missing vars (ps, []) = record {
  providers = ps;
  labels = vars.labels;
  result = fall_back vars.request_too_large vars.last_try_next;
}
on_missing vars (ps, m ∷ ms) = record {
  providers = ps;
  labels = vars.labels;
  result = err (no_provider_for_method (m ∷ ms));
}

-- What follows the loop, when no provider has served the request
unfoldable pub exhausted : List Provider → Vars → List Request → ℕ → Ended
unfolding on_missing methods_without_provider
exhausted ps vars reqs now =
    if vars.method_unsupported
    then on_missing vars (methods_without_provider ps reqs now)
    else record {
      providers = ps;
      labels = vars.labels;
      result = fall_back vars.request_too_large vars.last_try_next;
    }

-- The loop over the providers: what it leaves, the variables, and what is returned from inside it.
pub record Left : Type 0 where
  pub providers : List Provider
  pub vars : Vars
  pub returns : Option (Result Forward)

module _ (json : Json) where
  abbrev untouched : List Visit → List Provider
  untouched vs = map (λ (v : Visit). v.provider) vs

  behind : Provider → Left → Left
  behind p l = record l { providers = p ∷ l.providers }

  leave : List Visit → (Vars → Outcome Left) → After → Option (Result Forward) → Outcome Left
  unfolding behind
  leave vs rest a (some r) =
      done (record { providers = a.provider ∷ untouched vs; vars = a.vars; returns = some r })
  leave vs rest a none = rest a.vars >>= λ l. done (behind a.provider l)

  -- After a visit the loop returns, or goes on with the providers behind.
  advance : List Visit → (Vars → Outcome Left) → Outcome After → Outcome Left
  unfolding leave
  advance vs rest panicked = panicked
  advance vs rest (done a) = leave vs rest a a.returns

  loop : Job → List Visit → Vars → Outcome Left
  unfolding advance
  loop job [] vars = done (record { providers = []; vars = vars; returns = none })
  loop job (v ∷ vs) vars = advance vs (loop job vs) (visit json job v vars)

  abbrev start : Labels → Vars
  start labels = record {
    method_unsupported = false;
    request_too_large = false;
    last_try_next = none;
    labels = labels;
  }

  ended : Job → ℕ → Left → Option (Result Forward) → Ended
  unfolding exhausted
  ended job now l (some r) = record { providers = l.providers; labels = l.vars.labels; result = r }
  ended job now l none = exhausted l.providers l.vars job.requests now

  finish : Job → ℕ → Left → Ended
  unfolding ended
  finish job now l = ended job now l l.returns

  -- forwardWithFailover; `now` is the time after the loop.
  unfoldable pub forward_with_failover : Job → List Visit → Labels → ℕ → Outcome Ended
  unfolding loop finish
  forward_with_failover job vs labels now =
      loop job vs (start labels) >>= λ l. done (finish job now l)
