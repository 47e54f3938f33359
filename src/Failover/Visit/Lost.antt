-- ===== src/Failover/Visit/Lost.antt =====
-- When a visit marks its provider unhealthy, and when it spares it (internal/http.go).
use haprovider.Prelude.{
  ℕ, ℤ, Text, ◌≡◌, ◌≢◌, refl, ap, ◌∙◌, Bool, true, false, List, [], ◌∷◌, Option, none, ◌==◌, ==_iff,
  if◌then◌else◌, length, Bool-cases, inl, inr, arith,
}
use haprovider.Prelude.Outcome.{Outcome, done, ◌>>=◌}
use haprovider.Rpc.Error.{
  Error, rate_limited, method_not_supported, try_next_provider, status, canceled, deadline_exceeded,
  no_providers_available, request_too_large, no_provider_for_method, empty_batch, failure,
}
use haprovider.Rpc.Message.{Request}
use haprovider.Rpc.Json.{Json}
use haprovider.Rpc.Batch.{BatchResponse, Result, ok, err}
use haprovider.Core.Provider.Health.{mark_unhealthy-is_offline}
use haprovider.Core.Provider.{Provider, mark_unhealthy, mark_method_unsupported}
use haprovider.Httpx.{send_rpc_batch_request}
use haprovider.Failover.Visit.{
  lose_if_online, Job, Visit, Vars, After, go_on, supports_all, is_method_not_supported,
  is_request_too_large, on_failure, on_batch, on_call, call, size_mismatch, when_supported,
  when_online, visit,
}
use haprovider.Failover.Visit.Fits.{answering}

-- What becomes of a provider whose call for `reqs` fails with `e`
pub data Fails (reqs : List Request) (p : Provider) (e : Error) (now : ℕ) : Provider → Type 0 where
  -- The status 413 is no fault of the provider.
  too_large : e ≡ status 413 → Fails reqs p e now p
  -- Neither is a method that it does not support, for a single request: that is noted.
  lacks_method :
      (r : Request) (c : ℤ) (m : Text)
      → reqs ≡ r ∷ []
      → e ≡ method_not_supported c m
      → Fails reqs p e now (mark_method_unsupported p r.method now)
  -- Any other error marks a provider unhealthy that is online,
  loses :
      e ≢ status 413
      → ((c : ℤ) (m : Text) → (length reqs ≡ 1) → e ≢ method_not_supported c m)
      → p.online ≡ true
      → Fails reqs p e now (mark_unhealthy p e now)
  -- and leaves one alone that is offline by then.
  already_lost :
      e ≢ status 413
      → ((c : ℤ) (m : Text) → (length reqs ≡ 1) → e ≢ method_not_supported c m)
      → p.online ≡ false
      → Fails reqs p e now p

too_large-status : (e : Error) → is_request_too_large e ≡ true → e ≡ status 413
too_large-status (rate_limited x y) h = cc
too_large-status (method_not_supported x y) h = cc
too_large-status (try_next_provider x) h = cc
too_large-status (status x) h = ap status ((==_iff x 413).0 h)
too_large-status canceled h = cc
too_large-status deadline_exceeded h = cc
too_large-status no_providers_available h = cc
too_large-status request_too_large h = cc
too_large-status (no_provider_for_method x) h = cc
too_large-status empty_batch h = cc
too_large-status (failure x) h = cc

lacks_method-of :
    (e : Error)
    → is_method_not_supported e ≡ true
    → (c : ℤ) × (m : Text) × (e ≡ method_not_supported c m)
lacks_method-of (rate_limited x y) h = cc
lacks_method-of (method_not_supported x y) h = (x, y, refl)
lacks_method-of (try_next_provider x) h = cc
lacks_method-of (status x) h = cc
lacks_method-of canceled h = cc
lacks_method-of deadline_exceeded h = cc
lacks_method-of no_providers_available h = cc
lacks_method-of request_too_large h = cc
lacks_method-of (no_provider_for_method x) h = cc
lacks_method-of empty_batch h = cc
lacks_method-of (failure x) h = cc

not_too_large : (e : Error) → is_request_too_large e ≡ false → e ≢ status 413
not_too_large e h k = let large : is_request_too_large e ≡ true = rw k refl in cc

is_lacking :
    (e : Error)
    → is_method_not_supported e ≡ false
    → (c : ℤ) (m : Text) → e ≢ method_not_supported c m
is_lacking e h c m k = let lacks : is_method_not_supported e ≡ true = rw k refl in cc

lost-Fails :
    (reqs : List Request) (p : Provider) (e : Error) (now : ℕ) (online : Bool)
    → p.online ≡ online
    → e ≢ status 413
    → ((c : ℤ) (m : Text) → length reqs ≡ 1 → e ≢ method_not_supported c m)
    → Fails reqs p e now (if online then mark_unhealthy p e now else p)
lost-Fails reqs p e now true on large lacks = loses large lacks on
lost-Fails reqs p e now false off large lacks = already_lost large lacks off

-- An error of a batch, or one that is not about the method
other-Fails :
    (reqs : List Request) (p : Provider) (vars : Vars) (e : Error) (now : ℕ) (large : Bool)
    → is_request_too_large e ≡ large
    → ((c : ℤ) (m : Text) → length reqs ≡ 1 → e ≢ method_not_supported c m)
    → let a =
        if large
        then go_on p (record vars { request_too_large = true })
        else go_on (lose_if_online p e now) vars in
      (a.returns ≡ none) × Fails reqs p e now a.provider
unfolding lose_if_online
other-Fails reqs p vars e now true h lacks = (refl, too_large (too_large-status e h))
other-Fails reqs p vars e now false h lacks =
    (refl, lost-Fails reqs p e now p.online refl (not_too_large e h) lacks)

single-Fails :
    (r : Request) (p : Provider) (vars : Vars) (e : Error) (now : ℕ) (lacks : Bool)
    → is_method_not_supported e ≡ lacks
    → let a =
        if lacks
        then go_on
            (mark_method_unsupported p r.method now)
            (record vars { method_unsupported = true })
        else if is_request_too_large e
        then go_on p (record vars { request_too_large = true })
        else go_on (lose_if_online p e now) vars in
      (a.returns ≡ none) × Fails (r ∷ []) p e now a.provider
single-Fails r p vars e now true h =
    let (c, m, same) = lacks_method-of e h in (refl, lacks_method r c m refl same)
single-Fails r p vars e now false h =
    other-Fails (r ∷ []) p vars e now (is_request_too_large e) refl (λ c m one. is_lacking e h c m)

on_failure-Fails :
    (reqs : List Request) (p : Provider) (vars : Vars) (e : Error) (now : ℕ)
    → let a = on_failure reqs p vars e now in (a.returns ≡ none) × Fails reqs p e now a.provider
unfolding on_failure
on_failure-Fails [] p vars e now =
    other-Fails [] p vars e now (is_request_too_large e) refl (λ c m one. absurd (omega arith))
on_failure-Fails (r ∷ []) p vars e now =
    single-Fails r p vars e now (is_method_not_supported e) refl
on_failure-Fails (r ∷ q ∷ reqs) p vars e now =
    other-Fails (r ∷ q ∷ reqs) p vars e now (is_request_too_large e) refl
      (λ c m one. absurd (omega arith))

module _ (json : Json) (job : Job) (v : Visit) (vars : Vars) where
  pub visit-offline :
      v.provider.online ≡ false → visit json job v vars ≡ done (go_on v.provider vars)
  unfolding visit
  visit-offline off = of_test v.provider.online off
    where
      of_test :
          (b : Bool) → b ≡ false → when_online json job v vars b ≡ done (go_on v.provider vars)
      of_test true h = cc
      of_test false h = refl

  on_call-failure :
      (p : Provider) (e : Error)
      → on_call json job vars v.returned none (p, err e)
        ≡ done (on_failure job.requests p vars e v.returned)
  unfolding on_call
  on_call-failure p e = refl

  on_call-mismatch :
      (p : Provider) (res : BatchResponse)
      → length res.responses ≢ length job.requests
      → on_call json job vars v.returned none (p, ok res)
        ≡ done (
            go_on
              (mark_unhealthy p
                (size_mismatch json (length job.requests) (length res.responses))
                v.returned)
              vars)
  unfolding on_call on_batch
  on_call-mismatch p res differ = elim (Bool-cases (length res.responses == length job.requests)) [
    | inl equal ↦ absurd (differ ((==_iff _ _).0 equal))
    | inr other ↦ rw other refl
  ]

  -- What SendRPCBatchRequest returns in this visit
  abbrev pub Sent : Provider × Result BatchResponse → Type 0
  Sent r =
      send_rpc_batch_request json job.show job.endpoint v.upstream (answering job v) job.requests
        job.is_batch v.returned
      ≡ done r

  of_able :
      (b : Bool)
      → b ≡ true
      → when_supported json job v vars ((supports_all v.provider job.requests v.arrived).0, b)
        ≡ call json job v vars (supports_all v.provider job.requests v.arrived).0
  unfolding when_supported
  of_able true h = refl
  of_able false h = cc

  of_online :
      (b : Bool)
      → b ≡ true
      → when_online json job v vars b
        ≡ when_supported json job v vars (supports_all v.provider job.requests v.arrived)
  unfolding when_online
  of_online true h = refl
  of_online false h = cc

  -- A visit to an online provider that supports the methods, with the client still there, ends with
  -- what follows the call.
  visit-call :
      (r : Provider × Result BatchResponse)
      → v.provider.online ≡ true
      → (supports_all v.provider job.requests v.arrived).1 ≡ true
      → v.cancelled ≡ none
      → Sent r
      → visit json job v vars ≡ on_call json job vars v.returned none r
  unfolding visit call
  visit-call r on able there sent =
      of_online v.provider.online on
      ∙ (of_able (supports_all v.provider job.requests v.arrived).1 able
          ∙ (ap
                (λ (o : Outcome (Provider × Result BatchResponse)).
                  o >>= on_call json job vars v.returned v.cancelled)
                sent
              ∙ ap (λ (c : Option Error). on_call json job vars v.returned c r) there))

  -- A call that fails while the client is there leaves the request to the next provider. The status 413
  -- leaves this one as it was, and a method that it does not support is noted if the request is a single
  -- one. Any other error marks it unhealthy, if it was not offline by then already, and then it is
  -- left as it was.
  pub visit-failure :
      (p : Provider) (e : Error)
      → v.provider.online ≡ true
      → (supports_all v.provider job.requests v.arrived).1 ≡ true
      → v.cancelled ≡ none
      → Sent (p, err e)
      → (a : After) × (visit json job v vars ≡ done a)
        × (a.returns ≡ none)
        × Fails job.requests p e v.returned a.provider
  visit-failure p e on able there sent =
      let (goes_on, health) = on_failure-Fails job.requests p vars e v.returned in
      (
        on_failure job.requests p vars e v.returned,
        visit-call (p, err e) on able there sent ∙ on_call-failure p e,
        goes_on,
        health,
      )

  -- A response with another number of answers than there were requests loses its provider, and the
  -- request is left to the next one.
  pub visit-mismatch :
      (p : Provider) (res : BatchResponse)
      → v.provider.online ≡ true
      → (supports_all v.provider job.requests v.arrived).1 ≡ true
      → v.cancelled ≡ none
      → Sent (p, ok res)
      → length res.responses ≢ length job.requests
      → (a : After) × (visit json job v vars ≡ done a)
        × (a.returns ≡ none)
        × (a.provider.online ≡ false)
  visit-mismatch p res on able there sent differ =
      let q =
        mark_unhealthy p (size_mismatch json (length job.requests) (length res.responses))
          v.returned in
      (
        go_on q vars,
        visit-call (p, ok res) on able there sent ∙ on_call-mismatch p res differ,
        refl,
        mark_unhealthy-is_offline p _ v.returned,
      )
