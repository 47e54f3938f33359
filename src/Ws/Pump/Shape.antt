-- ===== src/Ws/Pump/Shape.antt =====
-- The acts that follow a message or an event (internal/ws/ws.go).
use haprovider.Prelude.{
  ℕ, zero, suc, ◌≡◌, refl, Bool, true, false, List, [], ◌∷◌, map, Option, none, some, Text, ltb,
  Bool-cases, length, arith, inl, inr,
}
use haprovider.Prelude.Outcome.{Outcome, done, panicked, ◌>>=◌}
use haprovider.Rpc.Message.{Request, Response}
use haprovider.Rpc.Json.{Json}
use haprovider.Rpc.Batch.{
  BatchRequest, Result, ok, err, max_batch_size, decode_batch_request, decode_response,
}
use haprovider.Chain.{Chain}
use haprovider.Chain.Reject.{reject_disallowed}
use haprovider.Failover.Visit.{Meaning, for_client, unsupported, elsewhere, fault, classify}
use haprovider.Ws.Pump.{
  Act, to_provider, to_client, Link, Heard, Asked, heard, if_client, on_response, on_decoded,
  provider_message, bad_request, send_each, answer_rejected, unless_rejected, on_batch,
  client_message,
}
use haprovider.Ws.Pump.Acts.{
  closes_proxy, closes_client, closes_provider, is_close, is_request, will,
}

-- Acts that close the proxy close both connections, and acts with a request close nothing.
pub record IsShaped (acts : List Act) : Type 0 where
  pub both :
      will closes_proxy acts ≡ true
      → (will closes_client acts ≡ true) × (will closes_provider acts ≡ true)
  pub requests : will is_request acts ≡ true → will is_close acts ≡ false

map-answers :
    (rs : List Response)
    → (will is_close (map to_client rs) ≡ false)
      × (will closes_proxy (map to_client rs) ≡ false)
      × (will is_request (map to_client rs) ≡ false)
map-answers [] = (refl, refl, refl)
map-answers (r ∷ rs) = map-answers rs

-- A batch that is passed on closes nothing.
sends :
    (room : ℕ) (rs : List (Option Request)) (a : Asked)
    → send_each room rs ≡ done a
    → (will is_close a.acts ≡ false) × (will closes_proxy a.acts ≡ false)
unfolding send_each
sends room [] a h = ground arith
sends zero (r ∷ rs) a h = ground arith
sends (suc room) (none ∷ rs) a h = cc
sends (suc room) (some r ∷ rs) a h = of_rest (send_each room rs) refl h (sends room rs)
  where
    of_rest :
        (o : Outcome Asked)
        → send_each room rs ≡ o
        → (o >>= λ rest. done (record rest { acts = to_provider r ∷ rest.acts })) ≡ done a
        → ((b : Asked)
            → send_each room rs ≡ done b
            → (will is_close b.acts ≡ false) × (will closes_proxy b.acts ≡ false))
        → (will is_close a.acts ≡ false) × (will closes_proxy a.acts ≡ false)
    of_rest panicked e k ih = cc
    of_rest (done b) e k ih = ground (arith, ih b)

quiet-IsShaped :
    (acts : List Act) → will is_close acts ≡ false → will closes_proxy acts ≡ false → IsShaped acts
quiet-IsShaped acts c p = record { both = λ h. cc; requests = λ h. c }

bad_request-IsShaped : (bad : ℕ) → IsShaped (bad_request bad).acts
unfolding bad_request
bad_request-IsShaped bad = ground arith

module _ (json : Json) (chain : Option Chain) where
  pub client_message-IsShaped :
      (room bad : ℕ) (message : Text) (a : Asked)
      → client_message json chain room bad message ≡ done a
      → IsShaped a.acts
  unfolding client_message on_batch unless_rejected answer_rejected
  client_message-IsShaped room bad message a h = of_decoded (decode_batch_request json message) h
    where
      of_rejected :
          (q : BatchRequest) (o : Outcome (Option (List Response)))
          → (o >>= λ rejected. unless_rejected json room q rejected) ≡ done a
          → IsShaped a.acts
      of_rejected q panicked k = cc
      of_rejected q (done none) k =
          let (c, p) = sends room q.requests a k in quiet-IsShaped a.acts c p
      of_rejected q (done (some rejected)) k =
          let (c, p, r) = map-answers rejected in
          let same : map to_client rejected ≡ a.acts = cc in rw (← same) (quiet-IsShaped _ c p)

      of_decoded :
          (o : Outcome (Result BatchRequest))
          → (o >>= λ decoded. on_batch json chain room bad decoded) ≡ done a
          → IsShaped a.acts
      of_decoded panicked k = cc
      of_decoded (done (err e)) k =
          let same : bad_request bad ≡ a = cc in rw (← same) (bad_request-IsShaped bad)
      of_decoded (done (ok q)) k = elim (Bool-cases (ltb max_batch_size (length q.requests))) [
        | inl large ↦
            let bad_one = rw large at k in
            let same : bad_request bad ≡ a = cc in rw (← same) (bad_request-IsShaped bad)
        | inr small ↦ of_rejected q (reject_disallowed json chain q.requests) (rw small at k)
      ]

-- What pumpProvider does with a response, or with what is none
pub record IsProviderShaped (acts : List Act) : Type 0 where
  pub shaped : IsShaped acts
  pub none_asked : will is_request acts ≡ false

module _ (json : Json) (chain : Option Chain) where
  heard-IsShaped :
      (taken : Bool) (l : Link) (res : Response) (method : Text) (now : ℕ) (m : Meaning) (h : Heard)
      → heard true taken l res method now m ≡ done h
      → IsProviderShaped h.acts
  unfolding heard if_client
  heard-IsShaped taken l res method now for_client h e = ground arith
  heard-IsShaped taken l res method now unsupported h e = ground arith
  heard-IsShaped taken l res method now elsewhere h e = ground arith
  heard-IsShaped taken l res method now (fault x) h e = ground arith

  pub provider_message-IsShaped :
      (taken : Bool) (l : Link) (message : Text) (now : ℕ) (h : Heard)
      → provider_message json chain true taken l message now ≡ done h
      → IsProviderShaped h.acts
  unfolding provider_message on_decoded on_response if_client
  provider_message-IsShaped taken l message now h e = of_decoded (decode_response json message) e
    where
      of_meaning :
          (k : Link) (res : Response) (method : Text) (o : Outcome Meaning)
          → (o >>= λ m. heard true taken k res method now m) ≡ done h
          → IsProviderShaped h.acts
      of_meaning k res method panicked f = cc
      of_meaning k res method (done m) f = heard-IsShaped taken k res method now m h f

      of_decoded :
          (d : Result Response)
          → on_decoded json chain true taken l message now d ≡ done h
          → IsProviderShaped h.acts
      of_decoded (err x) f = ground arith
      of_decoded (ok res) f = of_meaning _ res _ (classify json chain res) f
