-- ===== src/Server/Coalesce/Own.antt =====
-- What a coalesced client gets (coalesceRequest of internal/http.go).
use haprovider.Prelude.{
  ℕ, ◌≡◌, refl, inl, inr, Bool, true, false, not, List, [], ◌∷◌, ◌++◌, none, ℤ, ◌==◌, all, Any,
  length, Text, text, text_eq_iff, Dict, member, arith,
}
use haprovider.Prelude.Outcome.{Outcome, done, panicked, Ends}
use haprovider.Rpc.Error.{Error}
use haprovider.Rpc.Message.{Request, Response}
use haprovider.Rpc.Json.{Json}
use haprovider.Rpc.Batch.{Result, ok, err}
use haprovider.Core.Endpoint.{Endpoint}
use haprovider.Chain.{Chain, ethereum, solana, tron, bitcoin}
use haprovider.Chain.Methods.{coalesceable, coalesceable_eth, coalesceable_solana, coalesceable_btc}
use haprovider.Metrics.Labels.{Labels}
use haprovider.Failover.Visit.{Job, Visit, Forward}
use haprovider.Failover.Visit.Fits.{Fits}
use haprovider.Failover.Loop.{Ended, forward_with_failover}
use haprovider.Failover.Loop.Served.{forward_with_failover-Fits}
use haprovider.Server.{Answer}
use haprovider.Server.Reply.{write_forward_error, write_batch_response}
use haprovider.Server.Coalesce.{
  Turn, leads, joins, Handled, coalesce_key, detached, recovered, first_response, deliver,
  run_to_end, take_turn, unless_gone, coalesce_request,
}

abbrev lacks_zero : Text → Bool
lacks_zero s = all (λ c. not (c == 0)) s

member-all :
    (p : Text → Bool) (s : Text) (ts : List Text)
    → member s ts ≡ true
    → all p ts ≡ true
    → p s ≡ true
unfolding member
member-all p s [] h every = cc
member-all p s (t ∷ ts) h every = ground (arith, text_eq_iff s t, member-all p s ts)

coalesceable-lacks_zero :
    (c : Chain) (method : Text) → coalesceable c method ≡ true → lacks_zero method ≡ true
unfolding coalesceable coalesceable_eth coalesceable_solana coalesceable_btc text
coalesceable-lacks_zero ethereum method h = member-all lacks_zero method coalesceable_eth h refl
coalesceable-lacks_zero solana method h = member-all lacks_zero method coalesceable_solana h refl
coalesceable-lacks_zero tron method h = member-all lacks_zero method coalesceable_eth h refl
coalesceable-lacks_zero bitcoin method h = member-all lacks_zero method coalesceable_btc h refl

split_at_zero :
    (m n p q : Text)
    → lacks_zero m ≡ true
    → lacks_zero n ≡ true
    → m ++ 0 ∷ p ≡ n ++ 0 ∷ q
    → (m ≡ n) × (p ≡ q)
split_at_zero [] [] p q hm hn e = (refl, cc)
split_at_zero [] (d ∷ n) p q hm hn e = ground arith
split_at_zero (c ∷ m) [] p q hm hn e = ground arith
split_at_zero (c ∷ m) (d ∷ n) p q hm hn e = ground (arith, split_at_zero m n p q)

-- Two requests that may be coalesced and have the same key have the same method and params.
pub coalesce_key-same :
    (c : Chain) (r s : Request)
    → coalesceable c r.method ≡ true
    → coalesceable c s.method ≡ true
    → coalesce_key r ≡ coalesce_key s
    → (r.method ≡ s.method) × (r.params ≡ s.params)
unfolding coalesce_key
coalesce_key-same c r s hr hs e =
    split_at_zero r.method s.method r.params s.params (coalesceable-lacks_zero c r.method hr)
      (coalesceable-lacks_zero c s.method hs) e

module _ (json : Json) (show : ℤ → Text) (e : Endpoint) (headers : Dict Text) where
  abbrev pub single : Request → Job
  single r = record { endpoint = e; requests = r ∷ []; is_batch = false; show = show }

  -- What the callback of a request returns
  abbrev pub callback : Request → List Visit → Labels → ℕ → Result Forward
  callback r vs labels now =
      recovered (forward_with_failover json (single r) (detached vs) labels now)

  -- A value that the callback of a coalesced request with that key returned
  pub record IsShared (c : Chain) (key : Text) (value : Result Forward) : Type 0 where
    pub request : Request
    pub coalesces : coalesceable c request.method ≡ true
    pub keyed : coalesce_key request ≡ key
    pub visits : List Visit
    pub labels : Labels
    pub finished : ℕ
    pub returned : callback request visits labels finished ≡ value

  -- What the client of a request is sent for a value: its own id is on the response.
  pub data Sent (r : Request) : Result Forward → Answer → Type 0 where
    error_sent : (x : Error) → Sent r (err x) (write_forward_error json headers x)
    response_sent :
        (f : Forward) (x : Response)
        → f.responses ≡ x ∷ []
        → Sent r
            (ok f)
            (write_batch_response json headers e f.provider (record x { id = r.id } ∷ []) false)

  one_response :
      (s : Request) (vs : List Visit) (f : Forward)
      → Any (λ v. Fits json (single s) v f) vs
      → (x : Response) × (f.responses ≡ x ∷ [])
  one_response s [] f m = absurd m
  one_response s (v ∷ vs) f (inl fits) = of_length f.responses fits.complete
    where
      of_length : (xs : List Response) → length xs ≡ 1 → (x : Response) × (xs ≡ x ∷ [])
      of_length [] h = absurd (omega arith)
      of_length (x ∷ []) h = (x, refl)
      of_length (x ∷ y ∷ xs) h = absurd (omega arith)
  one_response s (v ∷ vs) f (inr m) = one_response s vs f m

  callback-one :
      (s : Request) (vs : List Visit) (labels : Labels) (now : ℕ) (run : Outcome Ended)
      (f : Forward)
      → forward_with_failover json (single s) (detached vs) labels now ≡ run
      → recovered run ≡ ok f
      → (x : Response) × (f.responses ≡ x ∷ [])
  unfolding recovered
  callback-one s vs labels now panicked f eq h = cc
  callback-one s vs labels now (done ended) f eq h =
      one_response s (detached vs) f
        (forward_with_failover-Fits json (single s) (detached vs) labels now ended f eq h)

  deliver-Sent :
      (r s : Request) (vs : List Visit) (labels : Labels) (now : ℕ) (value : Result Forward)
      → callback s vs labels now ≡ value
      → (a : Answer) × (deliver json headers e r value ≡ done a) × Sent r value a
  unfolding deliver first_response
  deliver-Sent r s vs labels now (err x) h =
      (write_forward_error json headers x, refl, error_sent x)
  deliver-Sent r s vs labels now (ok f) h =
      let (x, one) =
        callback-one s vs labels now
          (forward_with_failover json (single s) (detached vs) labels now) f refl h in
      (
        write_batch_response json headers e f.provider (record x { id = r.id } ∷ []) false,
        rw one refl,
        response_sent f x one,
      )

  -- What the client of r is sent in its turn: the result of its own callback, or the value handed over
  abbrev pub TurnSent : Request → Result Forward → Turn → Answer → Type 0
  TurnSent r own leads a = Sent r own a
  TurnSent r own (joins value) a = Sent r value a

  pub take_turn-TurnSent :
      (c : Chain) (r : Request) (vs : List Visit) (labels : Labels) (now : ℕ) (turn : Turn)
      → ((value : Result Forward) → turn ≡ joins value → IsShared c (coalesce_key r) value)
      → (h : Handled) × (take_turn json headers e r
            (forward_with_failover json (single r) (detached vs) labels now)
            false
            turn
          ≡ done h)
        × TurnSent r (callback r vs labels now) turn h.answer
  unfolding take_turn unless_gone
  take_turn-TurnSent c r vs labels now leads shared =
      let run = forward_with_failover json (single r) (detached vs) labels now in
      let (a, runs, sent) = deliver-Sent r r vs labels now (callback r vs labels now) refl in
      (record { answer = a; forwarded = run_to_end run }, rw runs refl, sent)
  take_turn-TurnSent c r vs labels now (joins value) shared =
      let from = shared value refl in
      let (a, runs, sent) =
        deliver-Sent r from.request from.visits from.labels from.finished value from.returned in
      (record { answer = a; forwarded = none }, rw runs refl, sent)

  Ends-take_turn :
      (c : Chain) (r : Request) (vs : List Visit) (labels : Labels) (now : ℕ) (gone : Bool)
      (turn : Turn)
      → coalesceable c r.method ≡ true
      → ((value : Result Forward) → turn ≡ joins value → IsShared c (coalesce_key r) value)
      → Ends
          (λ h. Unit {0})
          (take_turn json headers e r
            (forward_with_failover json (single r) (detached vs) labels now)
            gone
            turn)
  unfolding take_turn unless_gone
  Ends-take_turn c r vs labels now true leads may shared = tt
  Ends-take_turn c r vs labels now true (joins value) may shared = tt
  Ends-take_turn c r vs labels now false turn may shared =
      rw (take_turn-TurnSent c r vs labels now turn shared).1 tt

  pub Ends-coalesce_request :
      (c : Chain) (r : Request) (vs : List Visit) (labels : Labels) (now : ℕ) (gone : Bool)
      (group : Text → Turn)
      → coalesceable c r.method ≡ true
      → ((key : Text) (value : Result Forward) → group key ≡ joins value → IsShared c key value)
      → Ends
          (λ h. Unit {0})
          (coalesce_request json headers e r
            (forward_with_failover json (single r) (detached vs) labels now)
            gone
            group)
  unfolding coalesce_request
  Ends-coalesce_request c r vs labels now gone group may shared =
      Ends-take_turn c r vs labels now gone (group (coalesce_key r)) may (shared (coalesce_key r))
