-- ===== src/Failover/Visit/Fits.antt =====
-- What a visit promises of the response that it returns or keeps (internal/http.go).
use haprovider.Prelude.{
  ℕ, ◌≡◌, refl, ap, map, Bool, true, false, List, [], ◌∷◌, Option, none, some, length, arith,
}
use haprovider.Prelude.Outcome.{Outcome, done, panicked, IfDone, IfDone->>=, deref_all}
use haprovider.Rpc.Error.{Error}
use haprovider.Rpc.Message.{Request, Response}
use haprovider.Rpc.Json.{Json}
use haprovider.Rpc.Batch.{BatchResponse, Result, ok, err}
use haprovider.Core.Provider.{Provider}
use haprovider.Httpx.{send_rpc_batch_request}
use haprovider.Httpx.Health.{SameHealth}
use haprovider.Failover.Visit.{
  Job, Visit, Forward, Vars, After, Scan, all_seen, try_next, lost, supports_all, on_failure,
  conclude,
}

-- The state in which a visit gets its answer: the flags were asked for, and other goroutines ran.
abbrev pub answering : Job → Visit → Provider
answering job v = v.during (supports_all v.provider job.requests v.arrived).0

-- What a visit promises of the response that it returns or keeps: the provider was online and supports
-- the methods, and what SendRPCBatchRequest returned for it is passed on, response for response.
pub record Fits (json : Json) (job : Job) (v : Visit) (f : Forward) : Type 0 where
  pub after_call : Provider
  pub response : BatchResponse
  pub sent :
      send_rpc_batch_request json job.show job.endpoint v.upstream
        (answering job v)
        job.requests
        job.is_batch
        v.returned
      ≡ done (after_call, ok response)
  pub answered : response.responses ≡ map some f.responses
  pub able : (supports_all v.provider job.requests v.arrived).1 ≡ true
  pub online : v.provider.online ≡ true
  pub complete : length f.responses ≡ length job.requests
  pub shaped : f.is_batch ≡ job.is_batch
  pub named : f.provider ≡ (answering job v).name

-- A result that is an error, or a response with P
abbrev pub OnOk : (Forward → Type 0) → Option (Result Forward) → Type 0
OnOk P none = Unit
OnOk P (some (err e)) = Unit
OnOk P (some (ok f)) = P f

abbrev pub OnSome : (Forward → Type 0) → Option Forward → Type 0
OnSome P none = Unit
OnSome P (some f) = P f

-- The response returned has P, and so has the one that is kept; the provider that serves a response
-- has the health that it had.
pub record Promise (P : Forward → Type 0) (p : Provider) (a : After) : Type 0 where
  pub served : OnOk P a.returns
  pub kept : OnSome P a.vars.last_try_next
  pub healthy : OnOk (λ f. SameHealth p a.provider) a.returns

pub conclude-Promise :
    (P : Forward → Type 0) (p : Provider) (f : Forward) (vars : Vars) (s : Provider × Bool × Scan)
    → P f
    → OnSome P vars.last_try_next
    → (s.2 ≡ all_seen → SameHealth p s.0)
    → Promise P p (conclude f vars s)
unfolding conclude
conclude-Promise P p f vars (q, found, all_seen) pf kept same = promise_all found
  where
    promise_all : (b : Bool) → Promise P p (conclude f vars (q, b, all_seen))
    promise_all true = record { served = tt; kept = kept; healthy = tt }
    promise_all false = record { served = pf; kept = kept; healthy = same refl }
conclude-Promise P p f vars (q, found, try_next) pf kept same = record {
  served = tt;
  kept = pf;
  healthy = tt;
}
conclude-Promise P p f vars (q, found, lost) pf kept same = record {
  served = tt;
  kept = kept;
  healthy = tt;
}

-- After an error the loop goes on, with the response that it kept.
pub on_failure_goes_on :
    (reqs : List Request) (p : Provider) (vars : Vars) (e : Error) (now : ℕ)
    → let a = on_failure reqs p vars e now in
      (a.returns ≡ none) × (a.vars.last_try_next ≡ vars.last_try_next)
unfolding on_failure
on_failure_goes_on [] p vars e now = ground arith
on_failure_goes_on (r ∷ []) p vars e now = ground arith
on_failure_goes_on (r ∷ q ∷ reqs) p vars e now = ground arith

pub IfDone-same {ℓ} :
    {A : Type ℓ} (P : A → Type 0) (o : Outcome A) → IfDone P o → IfDone (λ a. P a × (o ≡ done a)) o
IfDone-same P panicked h = tt
IfDone-same P (done a) h = (h, refl)

-- The pointers that deref_all reads
pub IfDone-deref_all_same :
    (xs : List (Option Response)) → IfDone (λ ys. xs ≡ map some ys) (deref_all xs)
unfolding deref_all
IfDone-deref_all_same [] = refl
IfDone-deref_all_same (none ∷ xs) = tt
IfDone-deref_all_same (some x ∷ xs) =
    IfDone->>= (λ ys. xs ≡ map some ys) (λ ys. some x ∷ xs ≡ map some ys) (deref_all xs)
      (λ ys. done (x ∷ ys)) (IfDone-deref_all_same xs)
      (λ ys h. ap (λ (zs : List (Option Response)). some x ∷ zs) h)
