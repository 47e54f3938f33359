-- ===== src/Failover/Visit/Health.antt =====
-- What a visit does to the health of its provider (internal/http.go).
use haprovider.Prelude.{
  ℕ, ◌≡◌, refl, ap, sym, ◌∙◌, map, length-map, ==_iff, Bool, true, false, List, [], ◌∷◌, Option,
  none, some, ◌==◌, length, Text, Bool-cases, inl, inr, arith,
}
use haprovider.Prelude.Outcome.{Outcome, done, panicked, IfDone, IfDone->>=, deref_all}
use haprovider.Rpc.Error.{Error}
use haprovider.Rpc.Message.{Response}
use haprovider.Rpc.Json.{Json}
use haprovider.Rpc.Batch.{BatchResponse, Result, ok, err}
use haprovider.Core.Provider.{Provider, mark_method_unsupported}
use haprovider.Chain.{Chain, new}
use haprovider.Failover.Attribution.{response_methods}
use haprovider.Httpx.{send_rpc_batch_request}
use haprovider.Httpx.Health.{SameHealth, send_rpc_batch_request-SameHealth}
use haprovider.Failover.Visit.Fits.{
  answering, Fits, OnSome, Promise, conclude-Promise, on_failure_goes_on, IfDone-same,
  IfDone-deref_all_same,
}
use haprovider.Failover.Visit.{
  admit_answered, Job, Visit, Forward, Vars, Meaning, for_client, unsupported, elsewhere, fault,
  Scan, scan_one, all_seen, supports_all, scan, classify, conclude, on_responses, on_batch, on_call,
  call, when_supported, when_online, visit,
}

mark_method_unsupported-SameHealth :
    (p q : Provider) (m : Text) (now : ℕ)
    → SameHealth p q
    → SameHealth p (mark_method_unsupported q m now)
unfolding mark_method_unsupported
mark_method_unsupported-SameHealth p q m now h = ground arith

scan_one-SameHealth :
    (p : Provider) (c : Outcome Meaning) (m : Text) (now : ℕ)
    (rest : Bool → Provider → Outcome (Provider × Bool × Scan)) (found : Bool) (q : Provider)
    → SameHealth p q
    → ((b : Bool) (r : Provider)
        → SameHealth p r
        → IfDone (λ s. s.2 ≡ all_seen → SameHealth p s.0) (rest b r))
    → IfDone (λ s. s.2 ≡ all_seen → SameHealth p s.0) (scan_one c m now rest found q)
unfolding scan_one
scan_one-SameHealth p panicked m now rest found q h ih = tt
scan_one-SameHealth p (done for_client) m now rest found q h ih = ih found q h
scan_one-SameHealth p (done unsupported) m now rest found q h ih =
    ih true _ (mark_method_unsupported-SameHealth p q m now h)
scan_one-SameHealth p (done elsewhere) m now rest found q h ih = λ e. cc
scan_one-SameHealth p (done (fault e)) m now rest found q h ih = λ e. cc

module _ (json : Json) where
  scan-SameHealth :
      (chain : Option Chain) (now : ℕ) (ms : List Text) (rs : List Response) (found : Bool)
      (p q : Provider)
      → SameHealth p q
      → IfDone (λ s. s.2 ≡ all_seen → SameHealth p s.0) (scan json chain now ms rs found q)
  unfolding scan
  scan-SameHealth chain now [] rs found p q h = λ _. h
  scan-SameHealth chain now (m ∷ ms) [] found p q h = λ _. h
  scan-SameHealth chain now (m ∷ ms) (r ∷ rs) found p q h =
      scan_one-SameHealth p (classify json chain r) m now (scan json chain now ms rs) found q h
        (λ b s. scan-SameHealth chain now ms rs b p s)

  module _ (P : Forward → Type 0) (job : Job) (v : Visit) (vars : Vars) where
    -- P holds of every response that this visit could give, and of the one kept so far.
    pub record Allows : Type 0 where
      pub from_visit : (f : Forward) → Fits json job v f → P f
      pub kept : OnSome P vars.last_try_next

    -- What SendRPCBatchRequest returned in this visit
    abbrev Sent : Provider × Result BatchResponse → Type 0
    Sent r =
        send_rpc_batch_request json job.show job.endpoint v.upstream (answering job v) job.requests
          job.is_batch v.returned
        ≡ done r

    on_responses-Promise :
        (p : Provider) (res : BatchResponse) (ress : List Response)
        → Allows
        → v.provider.online ≡ true
        → SameHealth (answering job v) p
        → length ress ≡ length job.requests
        → (supports_all v.provider job.requests v.arrived).1 ≡ true
        → Sent (p, ok res)
        → res.responses ≡ map some ress
        → IfDone (Promise P (answering job v)) (on_responses json job p vars ress v.returned)
    unfolding on_responses
    on_responses-Promise p res ress a on same size able sent all =
        let chain = new job.endpoint.kind in
        let methods = response_methods json job.requests job.is_batch ress in
        let forward : Forward = record {
          responses = ress;
          is_batch = job.is_batch;
          provider = p.name;
        } in
        let labelled = record vars { labels = admit_answered methods ress vars.labels } in
        let fits : Fits json job v forward = record {
          after_call = p;
          response = res;
          sent = sent;
          answered = all;
          able = able;
          online = on;
          complete = size;
          shaped = refl;
          named = same.name;
        } in
        IfDone->>= (λ s. s.2 ≡ all_seen → SameHealth (answering job v) s.0)
          (Promise P (answering job v)) (scan json chain v.returned methods ress false p)
          (λ s. done (conclude forward labelled s))
          (scan-SameHealth chain v.returned methods ress false (answering job v) p same)
          (λ s h.
            conclude-Promise P (answering job v) forward labelled s (a.from_visit forward fits)
              a.kept h)

    on_batch-Promise :
        (p : Provider) (res : BatchResponse)
        → Allows
        → v.provider.online ≡ true
        → SameHealth (answering job v) p
        → (supports_all v.provider job.requests v.arrived).1 ≡ true
        → Sent (p, ok res)
        → IfDone (Promise P (answering job v)) (on_batch json job p vars res v.returned)
    unfolding on_batch
    on_batch-Promise p res a on same able sent =
        elim (Bool-cases (length res.responses == length job.requests)) [
          | inl equal ↦ rw equal (
              IfDone->>= (λ ress. res.responses ≡ map some ress) (Promise P (answering job v))
                (deref_all res.responses) (λ ress. on_responses json job p vars ress v.returned)
                (IfDone-deref_all_same res.responses)
                (λ ress e.
                  on_responses-Promise p res ress a on same
                    (sym (length-map ress some)
                      ∙ (ap (λ (xs : List (Option Response)). length xs) (sym e)
                          ∙ (==_iff _ _).0 equal))
                    able sent e))
          | inr other ↦ rw other (record { served = tt; kept = a.kept; healthy = tt })
        ]

    on_call-Promise :
        (r : Provider × Result BatchResponse)
        → Allows
        → v.provider.online ≡ true
        → SameHealth (answering job v) r.0
        → (supports_all v.provider job.requests v.arrived).1 ≡ true
        → Sent r
        → IfDone (Promise P (answering job v)) (on_call json job vars v.returned v.cancelled r)
    unfolding on_call
    on_call-Promise r a on same able sent = of_context v.cancelled r same sent
      where
        of_context :
            (c : Option Error) (r : Provider × Result BatchResponse)
            → SameHealth (answering job v) r.0
            → Sent r
            → IfDone (Promise P (answering job v)) (on_call json job vars v.returned c r)
        of_context (some error) (p, x) h k = record { served = tt; kept = a.kept; healthy = tt }
        of_context none (p, err error) h k =
            let (none_yet, same_kept) = on_failure_goes_on job.requests p vars error v.returned in
            record { served = rw none_yet tt; kept = rw same_kept a.kept; healthy = rw none_yet tt }
        of_context none (p, ok res) h k = on_batch-Promise p res a on h able k

    call-Promise :
        Allows
        → v.provider.online ≡ true
        → (supports_all v.provider job.requests v.arrived).1 ≡ true
        → IfDone
            (Promise P (answering job v))
            (call json job v vars (supports_all v.provider job.requests v.arrived).0)
    unfolding call
    call-Promise a on able =
        IfDone->>= (λ r. SameHealth (answering job v) r.0 × Sent r) (Promise P (answering job v))
          (send_rpc_batch_request json job.show job.endpoint v.upstream (answering job v)
            job.requests job.is_batch v.returned)
          (on_call json job vars v.returned v.cancelled)
          (IfDone-same (λ r. SameHealth (answering job v) r.0) _
            (send_rpc_batch_request-SameHealth json job.show job.endpoint v.upstream
              (answering job v) job.requests job.is_batch v.returned))
          (λ r h. on_call-Promise r a on h.0 able h.1)

    when_supported-Promise :
        (able : Bool)
        → Allows
        → v.provider.online ≡ true
        → (supports_all v.provider job.requests v.arrived).1 ≡ able
        → IfDone (Promise P (answering job v)) (
            when_supported json job v vars
              ((supports_all v.provider job.requests v.arrived).0, able))
    unfolding when_supported
    when_supported-Promise true a on h = call-Promise a on h
    when_supported-Promise false a on h = record { served = tt; kept = a.kept; healthy = tt }

    when_online-Promise :
        (online : Bool)
        → Allows
        → v.provider.online ≡ online
        → IfDone (Promise P (answering job v)) (when_online json job v vars online)
    unfolding when_online
    when_online-Promise true a on =
        when_supported-Promise (supports_all v.provider job.requests v.arrived).1 a on refl
    when_online-Promise false a off = record { served = tt; kept = a.kept; healthy = tt }

    -- Of a visit: a response that it returns, or keeps for the end, comes from a provider that was
    -- online when the loop reached it, has one response for each request, in the client's shape, and
    -- bears the provider's name; and a provider that serves keeps the health that it had.
    pub visit-Promise : Allows → IfDone (Promise P (answering job v)) (visit json job v vars)
    unfolding visit
    visit-Promise a = when_online-Promise v.provider.online a refl
