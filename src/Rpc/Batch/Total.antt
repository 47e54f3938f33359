-- ===== src/Rpc/Batch/Total.antt =====
-- Decoding a response does not panic, and gives no nil pointer (internal/rpc/batch.go).
use haprovider.Prelude.{
  ℕ, ◌≡◌, ◌≢◌, refl, List, [], ◌∷◌, Option, none, some, Text, Bool-cases, Option-cases, inl, inr,
  ◌==◌, arith,
}
use haprovider.Prelude.Outcome.{done, Ends, NoNil}
use haprovider.Rpc.Message.{Response}
use haprovider.Rpc.Json.{Json}
use haprovider.Rpc.Batch.{
  BatchResponse, Result, ok, err, check_all, check_response, bad_json, unmarshal_batch_response,
  decode_batch_response,
}

-- A JSON value is never empty, as json.Unmarshal sees to it.
abbrev pub IsFilled : Json → Type 0
IsFilled json = (b : Text) → json.value_of b ≢ some []

-- If the body is an array of responses, it has no null in it.
abbrev pub NoNullIn : Json → Text → Type 0
NoNullIn json b =
    (v : Text) (rs : List (Option Response))
    → json.value_of b ≡ some v
    → json.responses_of v ≡ some rs
    → NoNil rs

abbrev pub NoNilBatch : Result BatchResponse → Type 0
NoNilBatch (ok res) = NoNil res.responses
NoNilBatch (err e) = Unit

pub NoNil-check_all {ℓ} :
    {A : Type ℓ} (check : A → Option A) (rs ys : List (Option A))
    → NoNil rs
    → check_all check rs ≡ some ys
    → NoNil ys
unfolding check_all
NoNil-check_all check [] ys h e = ground arith
NoNil-check_all check (none ∷ rs) ys h e = absurd h
NoNil-check_all check (some r ∷ rs) ys h e = elim (Option-cases (check_all check rs)) [
  | inl bad ↦ ground arith
  | inr (zs, rest) ↦ let ih = NoNil-check_all check rs zs h rest in ground arith
]

module _ (json : Json) (filled : IsFilled json) where
  Ends-unmarshal :
      (c : ℕ) (b : Text)
      → ((rs : List (Option Response)) → json.responses_of (c ∷ b) ≡ some rs → NoNil rs)
      → Ends NoNilBatch (unmarshal_batch_response json (c ∷ b))
  unfolding unmarshal_batch_response
  Ends-unmarshal c b no_null = elim (Bool-cases (c == b'[')) [
    | inl array ↦ rw array (elim (Option-cases (json.responses_of (c ∷ b))) [
      | inl unread ↦ rw unread tt
      | inr (rs, read) ↦ rw read (elim (Option-cases (check_all check_response rs)) [
        | inl bad ↦ rw bad tt
        | inr (ys, good) ↦ rw good (NoNil-check_all check_response rs ys (no_null rs read) good)
      ])
    ])
    | inr other ↦ ground arith
  ]

  of_value :
      (v : Option Text)
      → v ≢ some []
      → ((t : Text) (rs : List (Option Response))
          → v ≡ some t
          → json.responses_of t ≡ some rs
          → NoNil rs)
      → Ends NoNilBatch
          (elim v [ none ↦ done (err bad_json) | some t ↦ unmarshal_batch_response json t ])
  of_value none h k = tt
  of_value (some []) h k = absurd (h refl)
  of_value (some (c ∷ b)) h k = Ends-unmarshal c b (λ rs e. k (c ∷ b) rs refl e)

  pub Ends-decode_batch_response :
      (b : Text) → NoNullIn json b → Ends NoNilBatch (decode_batch_response json b)
  unfolding decode_batch_response
  Ends-decode_batch_response b clean = of_value (json.value_of b) (filled b) clean
