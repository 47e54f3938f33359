-- ===== src/Rpc/Batch/Shape.antt =====
-- What a decoded batch request looks like (internal/rpc/batch.go).
use haprovider.Prelude.{
  ℕ, ◌≡◌, ◌≢◌, ◌≤◌, refl, false, List, [], ◌∷◌, Option, none, some, Text, length, arith, inl, inr,
  Bool-cases, ◌==◌,
}
use haprovider.Prelude.Outcome.{Outcome, done, panicked}
use haprovider.Rpc.Message.{Request}
use haprovider.Rpc.Json.{Json}
use haprovider.Rpc.Batch.{
  BatchRequest, Result, ok, err, bad_json, batch_of_requests, batch_of_request,
  unmarshal_batch_request, decode_batch_request,
}

-- A batch holds a request, and what is no batch holds one, which is not nil.
pub record IsWellShaped (q : BatchRequest) : Type 0 where
  pub nonempty : 1 ≤ length q.requests
  pub single : q.is_batch ≡ false → (r : Request) × (q.requests ≡ some r ∷ [])

-- The property of a decoding that gives a batch.
abbrev pub OnBatch : (BatchRequest → Type 0) → Outcome (Result BatchRequest) → Type 0
OnBatch P (done (ok q)) = P q
OnBatch P (done (err e)) = Unit
OnBatch P panicked = ⊥

module _ (json : Json) where
  array-OnBatch :
      (o : Option (List (Option Request))) → OnBatch IsWellShaped (done (batch_of_requests json o))
  unfolding batch_of_requests
  array-OnBatch none = tt
  array-OnBatch (some []) = tt
  array-OnBatch (some (r ∷ rs)) = record { nonempty = omega arith; single = λ e. cc }

  object-OnBatch : (o : Option Request) → OnBatch IsWellShaped (done (batch_of_request json o))
  unfolding batch_of_request
  object-OnBatch none = tt
  object-OnBatch (some r) = record { nonempty = omega arith; single = λ e. (r, refl) }

  unmarshal-OnBatch :
      (c : ℕ) (b : Text) → OnBatch IsWellShaped (unmarshal_batch_request json (c ∷ b))
  unfolding unmarshal_batch_request
  unmarshal-OnBatch c b = elim (Bool-cases (c == b'[')) [
    | inl array ↦ rw array (array-OnBatch _)
    | inr other ↦ rw other (elim (Bool-cases (c == b'{')) [
      | inl object ↦ rw object (object-OnBatch _)
      | inr neither ↦ rw neither tt
    ])
  ]

  of_value :
      (v : Option Text)
      → v ≢ some []
      → OnBatch IsWellShaped
          (elim v [ none ↦ done (err bad_json) | some t ↦ unmarshal_batch_request json t ])
  of_value none h = tt
  of_value (some []) h = absurd (h refl)
  of_value (some (c ∷ b)) h = unmarshal-OnBatch c b

  -- Decoding never panics where the JSON decoder hands over a value of at least one byte, and what
  -- it returns without an error is a nonempty batch, or one request that is not nil.
  pub decode_batch_request-IsWellShaped :
      (b : Text) → json.value_of b ≢ some [] → OnBatch IsWellShaped (decode_batch_request json b)
  unfolding decode_batch_request
  decode_batch_request-IsWellShaped b h = of_value (json.value_of b) h
