-- ===== src/Failover/Loop/Served.antt =====
-- Which response forwardWithFailover returns, and what it leaves alone (internal/http.go).
use haprovider.Prelude.{
  ℕ, ◌≡◌, inl, inr, Bool, true, false, List, [], ◌∷◌, Option, none, some, Any, Text, Bool-cases,
}
use haprovider.Prelude.Outcome.{Outcome, done, panicked, IfDone, IfDone->>=}
use haprovider.Rpc.Json.{Json}
use haprovider.Rpc.Batch.{Result, ok, err}
use haprovider.Core.Provider.{Provider}
use haprovider.Metrics.Labels.{Labels}
use haprovider.Failover.Visit.{Job, Visit, Forward, Vars, After, visit}
use haprovider.Failover.Visit.Fits.{Fits, OnOk, OnSome, Promise, answering}
use haprovider.Failover.Visit.Health.{visit-Promise}
use haprovider.Failover.Loop.{
  Left, Ended, behind, leave, advance, loop, start, ended, finish, exhausted, fall_back, on_missing,
  forward_with_failover,
}

abbrev OnResult : (Forward → Type 0) → Result Forward → Type 0
OnResult P (ok f) = P f
OnResult P (err e) = Unit

fall_back-OnResult :
    (P : Forward → Type 0) (large : Bool) (kept : Option Forward)
    → OnSome P kept
    → OnResult P (fall_back large kept)
unfolding fall_back
fall_back-OnResult P true kept h = tt
fall_back-OnResult P false none h = tt
fall_back-OnResult P false (some f) h = h

on_missing-OnResult :
    (P : Forward → Type 0) (vars : Vars) (m : List Provider × List Text)
    → OnSome P vars.last_try_next
    → OnResult P (on_missing vars m).result
unfolding on_missing
on_missing-OnResult P vars (ps, []) h =
    fall_back-OnResult P vars.request_too_large vars.last_try_next h
on_missing-OnResult P vars (ps, m ∷ ms) h = tt

exhausted-OnResult :
    (P : Forward → Type 0) (ps : List Provider) (vars : Vars) (job : Job) (now : ℕ)
    → OnSome P vars.last_try_next
    → OnResult P (exhausted ps vars job.requests now).result
unfolding exhausted
exhausted-OnResult P ps vars job now h = elim (Bool-cases vars.method_unsupported) [
  | inl lacking ↦ simp lacking (on_missing-OnResult P vars _ h)
  | inr able ↦ simp able (fall_back-OnResult P vars.request_too_large vars.last_try_next h)
]

module _ (json : Json) (job : Job) where
  record Keeps (P : Forward → Type 0) (l : Left) : Type 0 where
    served : OnOk P l.returns
    kept : OnSome P l.vars.last_try_next

  leave-Keeps :
      (P : Forward → Type 0) (vs : List Visit) (rest : Vars → Outcome Left) (a : After)
      (r : Option (Result Forward))
      → OnOk P r
      → IfDone (Keeps P) (rest a.vars)
      → OnSome P a.vars.last_try_next
      → IfDone (Keeps P) (leave json vs rest a r)
  unfolding leave
  leave-Keeps P vs rest a (some r) h ih kept = record { served = h; kept = kept }
  leave-Keeps P vs rest a none h ih kept =
      IfDone->>= (Keeps P) (Keeps P) (rest a.vars) (λ l. done (behind json a.provider l)) ih
        (λ l k. record { served = k.served; kept = k.kept })

  advance-Keeps :
      (P : Forward → Type 0) (p : Provider) (vs : List Visit) (rest : Vars → Outcome Left)
      (o : Outcome After)
      → IfDone (Promise P p) o
      → ((vars : Vars) → OnSome P vars.last_try_next → IfDone (Keeps P) (rest vars))
      → IfDone (Keeps P) (advance json vs rest o)
  unfolding advance
  advance-Keeps P p vs rest panicked h ih = tt
  advance-Keeps P p vs rest (done a) h ih =
      leave-Keeps P vs rest a a.returns h.served (ih a.vars h.kept) h.kept

  loop-Keeps :
      (P : Forward → Type 0) (vs : List Visit) (vars : Vars)
      → ((f : Forward) → Any (λ v. Fits json job v f) vs → P f)
      → OnSome P vars.last_try_next
      → IfDone (Keeps P) (loop json job vs vars)
  unfolding loop
  loop-Keeps P [] vars from h = record { served = tt; kept = h }
  loop-Keeps P (v ∷ vs) vars from h =
      advance-Keeps P (answering job v) vs (loop json job vs) (visit json job v vars)
        (visit-Promise json P job v vars
          (record { from_visit = λ f fits. from f (inl fits); kept = h }))
        (λ vars' h'. loop-Keeps P vs vars' (λ f m. from f (inr m)) h')

  finish-OnResult :
      (P : Forward → Type 0) (now : ℕ) (l : Left)
      → Keeps P l
      → OnResult P (finish json job now l).result
  unfolding finish
  finish-OnResult P now l k = of_returns l.returns k.served
    where
      of_returns :
          (r : Option (Result Forward)) → OnOk P r → OnResult P (ended json job now l r).result
      of_returns none h = exhausted-OnResult P l.providers l.vars job now k.kept
      of_returns (some (ok f)) h = h
      of_returns (some (err e)) h = h

  forward-OnResult :
      (vs : List Visit) (labels : Labels) (now : ℕ)
      → IfDone
          (λ e. OnResult (λ f. Any (λ v. Fits json job v f) vs) e.result)
          (forward_with_failover json job vs labels now)
  unfolding forward_with_failover
  forward-OnResult vs labels now =
      let P : Forward → Type 0 = λ f. Any (λ v. Fits json job v f) vs in
      IfDone->>= (Keeps P) (λ e. OnResult P e.result) (loop json job vs (start json labels))
        (λ l. done (finish json job now l)) (loop-Keeps P vs (start json labels) (λ f m. m) tt)
        (λ l k. finish-OnResult P now l k)

  -- A response that forwardWithFailover returns comes from one of the providers: one that was online
  -- when the loop reached it and supports the methods. It is what SendRPCBatchRequest returned for that
  -- provider, response for response and in the same order, has one response for each request, is a
  -- batch exactly if the request was, and is labelled with the name of that provider.
  pub forward_with_failover-Fits :
      (vs : List Visit) (labels : Labels) (now : ℕ) (e : Ended) (f : Forward)
      → forward_with_failover json job vs labels now ≡ done e
      → e.result ≡ ok f
      → Any (λ v. Fits json job v f) vs
  forward_with_failover-Fits vs labels now e f run served =
      let whole : OnResult (λ g. Any (λ v. Fits json job v g) vs) e.result =
        rw run at (forward-OnResult vs labels now) in
      rw served at whole
