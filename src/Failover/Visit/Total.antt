-- ===== src/Failover/Visit/Total.antt =====
-- A visit to a provider does not panic (internal/http.go), if no response is null.
use haprovider.Prelude.{
  ℕ, ◌≡◌, refl, Bool, true, false, List, [], ◌∷◌, Option, none, some, Text, length, Bool-cases, inl,
  inr, ◌==◌,
}
use haprovider.Prelude.Outcome.{Outcome, done, Ends, Ends->>=, Ends-deref_all, deref_all}
use haprovider.Rpc.Error.{Error}
use haprovider.Rpc.Message.{Response, is_error}
use haprovider.Rpc.Json.{Json}
use haprovider.Rpc.Batch.{BatchResponse, Result, ok, err}
use haprovider.Rpc.Batch.Total.{IsFilled, NoNilBatch}
use haprovider.Core.Provider.{Provider}
use haprovider.Chain.{Chain, new}
use haprovider.Httpx.{send_rpc_batch_request}
use haprovider.Httpx.Total.{NoNulls, Whole, Ends-send_rpc_batch_request}
use haprovider.Failover.Attribution.{response_methods}
use haprovider.Failover.Visit.{
  Job, Visit, Vars, Meaning, Scan, for_client, unsupported, elsewhere, fault, scan_one, by_chain,
  classify, scan, conclude, on_responses, on_batch, on_call, call, when_supported, when_online,
  visit,
}

abbrev pub AnyEnd {ℓ} : {A : Type ℓ} → A → Type 0
AnyEnd a = Unit

Ends-scan_one :
    (m : Meaning) (method : Text) (now : ℕ)
    (rest : Bool → Provider → Outcome (Provider × Bool × Scan)) (found : Bool) (p : Provider)
    → ((b : Bool) (q : Provider) → Ends AnyEnd (rest b q))
    → Ends AnyEnd (scan_one (done m) method now rest found p)
unfolding scan_one
Ends-scan_one for_client method now rest found p h = h found p
Ends-scan_one unsupported method now rest found p h = h true _
Ends-scan_one elsewhere method now rest found p h = tt
Ends-scan_one (fault e) method now rest found p h = tt

module _ (json : Json) where
  pub classify-done :
      (c : Chain) (r : Response) → (m : Meaning) × (classify json (some c) r ≡ done m)
  unfolding classify by_chain
  classify-done c r = elim (Bool-cases (is_error r)) [
    | inl bad ↦ rw bad (_, refl)
    | inr good ↦ rw good (_, refl)
  ]

  Ends-scan :
      (c : Chain) (now : ℕ) (ms : List Text) (rs : List Response) (found : Bool) (p : Provider)
      → Ends AnyEnd (scan json (some c) now ms rs found p)
  unfolding scan
  Ends-scan c now [] rs found p = tt
  Ends-scan c now (m ∷ ms) [] found p = tt
  Ends-scan c now (m ∷ ms) (r ∷ rs) found p =
      let (k, e) = classify-done c r in
      rw e (
        Ends-scan_one k m now (scan json (some c) now ms rs) found p
          (λ b q. Ends-scan c now ms rs b q))

  module _ (filled : IsFilled json) (job : Job) {c : Chain}
      (known : new job.endpoint.kind ≡ some c) where
    Ends-on_responses :
        (p : Provider) (vars : Vars) (ress : List Response) (now : ℕ)
        → Ends AnyEnd (on_responses json job p vars ress now)
    unfolding on_responses
    Ends-on_responses p vars ress now = rw known (
        Ends->>= AnyEnd AnyEnd
          (scan json (some c) now (response_methods json job.requests job.is_batch ress) ress false
            p)
          (λ s. done (conclude _ _ s)) (Ends-scan c now _ ress false p) (λ s u. tt))

    Ends-on_batch :
        (p : Provider) (vars : Vars) (res : BatchResponse) (now : ℕ)
        → NoNilBatch (ok res)
        → Ends AnyEnd (on_batch json job p vars res now)
    unfolding on_batch
    Ends-on_batch p vars res now h =
        elim (Bool-cases (length res.responses == length job.requests)) [
          | inl equal ↦ rw equal (
              Ends->>= (λ ys. length ys ≡ length res.responses) AnyEnd (deref_all res.responses)
                (λ ress. on_responses json job p vars ress now) (Ends-deref_all res.responses h)
                (λ ress e. Ends-on_responses p vars ress now))
          | inr other ↦ rw other tt
        ]

    Ends-on_call :
        (vars : Vars) (now : ℕ) (cancelled : Option Error) (r : Provider × Result BatchResponse)
        → NoNilBatch r.1
        → Ends AnyEnd (on_call json job vars now cancelled r)
    unfolding on_call
    Ends-on_call vars now (some error) (p, r) h = tt
    Ends-on_call vars now none (p, err e) h = tt
    Ends-on_call vars now none (p, ok res) h = Ends-on_batch p vars res now h

    -- The provider of a visit sends no null for a response.
    abbrev pub IsClean : Visit → Type 0
    IsClean v = NoNulls json job.show job.endpoint v.upstream

    Ends-call :
        (v : Visit) (vars : Vars) (p : Provider) → IsClean v → Ends AnyEnd (call json job v vars p)
    unfolding call
    Ends-call v vars p clean =
        Ends->>= (Whole json filled) AnyEnd
          (send_rpc_batch_request json job.show job.endpoint v.upstream (v.during p) job.requests
            job.is_batch v.returned)
          (on_call json job vars v.returned v.cancelled)
          (Ends-send_rpc_batch_request json filled job.show job.endpoint v.upstream (v.during p)
            job.requests job.is_batch v.returned clean)
          (λ r h. Ends-on_call vars v.returned v.cancelled r h)

    Ends-when_supported :
        (v : Visit) (vars : Vars) (s : Provider × Bool)
        → IsClean v
        → Ends AnyEnd (when_supported json job v vars s)
    unfolding when_supported
    Ends-when_supported v vars (p, true) clean = Ends-call v vars p clean
    Ends-when_supported v vars (p, false) clean = tt

    Ends-when_online :
        (v : Visit) (vars : Vars) (online : Bool)
        → IsClean v
        → Ends AnyEnd (when_online json job v vars online)
    unfolding when_online
    Ends-when_online v vars true clean = Ends-when_supported v vars _ clean
    Ends-when_online v vars false clean = tt

    pub Ends-visit : (v : Visit) (vars : Vars) → IsClean v → Ends AnyEnd (visit json job v vars)
    unfolding visit
    Ends-visit v vars clean = Ends-when_online v vars v.provider.online clean
