-- ===== src/Rpc/Batch/Requests.antt =====
-- Decoding a request does not panic, and gives no nil pointer (internal/rpc/batch.go).
use haprovider.Prelude.{
  ℕ, ◌≡◌, ◌≢◌, refl, List, [], ◌∷◌, Option, none, some, Text, Bool-cases, Option-cases, inl, inr,
  ◌==◌,
}
use haprovider.Prelude.Outcome.{done, Ends, NoNil}
use haprovider.Rpc.Message.{Request}
use haprovider.Rpc.Json.{Json}
use haprovider.Rpc.Batch.{
  BatchRequest, Result, ok, err, check_all, check_request, bad_json, batch_of_requests,
  batch_of_request, unmarshal_batch_request, decode_batch_request,
}
use haprovider.Rpc.Batch.Total.{IsFilled, NoNil-check_all}

-- If the body is an array of requests, it has no null in it.
abbrev pub NoNullRequests : Json → Text → Type 0
NoNullRequests json b =
    (v : Text) (rs : List (Option Request))
    → json.value_of b ≡ some v
    → json.requests_of v ≡ some rs
    → NoNil rs

abbrev pub NoNilRequests : Result BatchRequest → Type 0
NoNilRequests (ok q) = NoNil q.requests
NoNilRequests (err e) = Unit

module _ (json : Json) (filled : IsFilled json) where
  NoNil-requests :
      (rs : List (Option Request))
      → NoNil rs
      → NoNilRequests (batch_of_requests json (check_all check_request rs))
  unfolding batch_of_requests
  NoNil-requests rs h = elim (Option-cases (check_all check_request rs)) [
    | inl bad ↦ rw bad tt
    | inr ([], read) ↦ rw read tt
    | inr (r ∷ rest, read) ↦ rw read (NoNil-check_all check_request rs (r ∷ rest) h read)
  ]

  NoNil-array :
      (o : Option (List (Option Request)))
      → ((rs : List (Option Request)) → o ≡ some rs → NoNil rs)
      → NoNilRequests
          (batch_of_requests json (elim o [ none ↦ none | some rs ↦ check_all check_request rs ]))
  unfolding batch_of_requests
  NoNil-array none no_null = tt
  NoNil-array (some rs) no_null = NoNil-requests rs (no_null rs refl)

  NoNil-object : (o : Option Request) → NoNilRequests (batch_of_request json o)
  unfolding batch_of_request
  NoNil-object none = tt
  NoNil-object (some r) = tt

  Ends-unmarshal_request :
      (c : ℕ) (b : Text)
      → ((rs : List (Option Request)) → json.requests_of (c ∷ b) ≡ some rs → NoNil rs)
      → Ends NoNilRequests (unmarshal_batch_request json (c ∷ b))
  unfolding unmarshal_batch_request
  Ends-unmarshal_request c b no_null = elim (Bool-cases (c == b'[')) [
    | inl array ↦ rw array (NoNil-array (json.requests_of (c ∷ b)) no_null)
    | inr other ↦ rw other (elim (Bool-cases (c == b'{')) [
      | inl object ↦ rw object (NoNil-object _)
      | inr neither ↦ rw neither tt
    ])
  ]

  of_value :
      (v : Option Text)
      → v ≢ some []
      → ((t : Text) (rs : List (Option Request))
          → v ≡ some t
          → json.requests_of t ≡ some rs
          → NoNil rs)
      → Ends NoNilRequests
          (elim v [ none ↦ done (err bad_json) | some t ↦ unmarshal_batch_request json t ])
  of_value none h clean = tt
  of_value (some []) h clean = absurd (h refl)
  of_value (some (c ∷ b)) h clean = Ends-unmarshal_request c b (λ rs. clean (c ∷ b) rs refl)

  pub Ends-decode_batch_request :
      (b : Text) → NoNullRequests json b → Ends NoNilRequests (decode_batch_request json b)
  unfolding decode_batch_request
  Ends-decode_batch_request b clean = of_value (json.value_of b) (filled b) clean
