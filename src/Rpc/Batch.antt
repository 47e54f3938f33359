-- ===== src/Rpc/Batch.antt =====
-- internal/rpc/batch.go: one message or a batch, decoded from and encoded to JSON.
pub mod Shape
pub mod Total
pub mod Requests
use haprovider.Prelude.{
  ℕ, ◌≡◌, ◌<◌, Bool, true, false, not, ◌&&◌, List, [], ◌∷◌, ◌++◌, map, Option, none, some, ℤ, ltb,
  ◌==◌, if◌then◌else◌, is_empty, length, Text, text, text_eq,
}
use haprovider.Prelude.Outcome.{Outcome, done, panicked, ◌>>=◌, deref}
use haprovider.Rpc.Id.{format_raw_body, unmarshal_id, id_string}
use haprovider.Rpc.Error.{Error, empty_batch, failure}
use haprovider.Rpc.Message.{Request, Response, to_wire}
use haprovider.Rpc.Json.{Json}

abbrev pub max_batch_size : ℕ
max_batch_size = 100

-- A nil entry is a `null` in the array.
pub record BatchRequest : Type 0 where
  pub requests : List (Option Request)
  pub is_batch : Bool

pub record BatchResponse : Type 0 where
  pub responses : List (Option Response)
  pub is_batch : Bool

-- A value, or a non-nil Go error.
pub data Result {ℓ} (A : Type ℓ) : Type ℓ where
  ok : A → Result A
  err : Error → Result A

abbrev pub or_fail {ℓ} : {A : Type ℓ} → Option A → Error → Result A
or_fail none e = err e
or_fail (some a) e = ok a

-- NewBatchRequest and NewBatchResponse
unfoldable pub new_batch_request : List Request → BatchRequest
new_batch_request reqs = record { requests = map some reqs; is_batch = ltb 1 (length reqs) }

unfoldable pub new_batch_response : List Response → BatchResponse
new_batch_response ress = record { responses = map some ress; is_batch = ltb 1 (length ress) }

-- The id of a decoded message, put through ID.UnmarshalJSON if it is present.
abbrev pub valid_id : Text → Option Text
valid_id [] = some []
valid_id (c ∷ rest) = unmarshal_id (c ∷ rest)

abbrev check_request : Request → Option Request
check_request r = elim (valid_id r.id) [ none ↦ none | some i ↦ some (record r { id = i }) ]

abbrev check_response : Response → Option Response
check_response r = elim (valid_id r.id) [ none ↦ none | some i ↦ some (record r { id = i }) ]

-- A nil entry stays nil; one bad id fails the whole array.
unfoldable pub check_all {ℓ} :
    {A : Type ℓ} → (A → Option A) → List (Option A) → Option (List (Option A))
check_all check [] = some []
check_all check (none ∷ xs) = elim (check_all check xs) [ none ↦ none | some ys ↦ some (none ∷ ys) ]
check_all check (some x ∷ xs) = elim (check x) [
  | none ↦ none
  | some y ↦ elim (check_all check xs) [ none ↦ none | some ys ↦ some (some y ∷ ys) ]
]

abbrev pub bad_json : Error
bad_json = failure []

module _ (json : Json) where
  open json use {
    value_of, request_of, requests_of, response_of, responses_of, string_of, request_text,
    requests_text, wire_text, wires_text,
  }

  -- The array and object cases of BatchRequest.UnmarshalJSON
  batch_of_requests : Option (List (Option Request)) → Result BatchRequest
  batch_of_requests none = err bad_json
  batch_of_requests (some []) = err empty_batch
  batch_of_requests (some (r ∷ rs)) = ok (record { requests = r ∷ rs; is_batch = true })

  batch_of_request : Option Request → Result BatchRequest
  batch_of_request none = err bad_json
  batch_of_request (some r) = ok (record { requests = some r ∷ []; is_batch = false })

  abbrev decode_requests : Text → Option (List (Option Request))
  decode_requests b = elim (requests_of b) [ none ↦ none | some rs ↦ check_all check_request rs ]

  abbrev decode_one_request : Text → Option Request
  decode_one_request b = elim (request_of b) [ none ↦ none | some r ↦ check_request r ]

  -- BatchRequest.UnmarshalJSON; `b[0]` on no bytes panics.
  unfoldable pub unmarshal_batch_request : Text → Outcome (Result BatchRequest)
  unfolding batch_of_requests batch_of_request text check_all
  unmarshal_batch_request [] = panicked
  unmarshal_batch_request (c ∷ b) =
      if c == b'['
      then done (batch_of_requests (decode_requests (c ∷ b)))
      else if c == b'{'
      then done (batch_of_request (decode_one_request (c ∷ b)))
      else done (err (failure (text "invalid request: " ++ format_raw_body (c ∷ b))))

  -- DecodeBatchRequest
  unfoldable pub decode_batch_request : Text → Outcome (Result BatchRequest)
  decode_batch_request b = elim (value_of b) [
    | none ↦ done (err bad_json)
    | some v ↦ unmarshal_batch_request v
  ]

  -- BatchResponse.UnmarshalJSON: an empty array is a batch of no responses.
  unfoldable pub unmarshal_batch_response : Text → Outcome (Result BatchResponse)
  unfolding text check_all
  unmarshal_batch_response [] = panicked
  unmarshal_batch_response (c ∷ b) =
      if c == b'['
      then done (elim (responses_of (c ∷ b)) [
        | none ↦ err bad_json
        | some rs ↦ elim (check_all check_response rs) [
          | none ↦ err bad_json
          | some ys ↦ ok (record { responses = ys; is_batch = true })
        ]
      ])
      else if c == b'{'
      then done (elim (response_of (c ∷ b)) [
        | none ↦ err bad_json
        | some r ↦ elim (check_response r) [
          | none ↦ err bad_json
          | some y ↦ ok (record { responses = some y ∷ []; is_batch = false })
        ]
      ])
      else done (err (failure (text "invalid request: " ++ format_raw_body (c ∷ b))))

  -- DecodeBatchResponse
  unfoldable pub decode_batch_response : Text → Outcome (Result BatchResponse)
  decode_batch_response b = elim (value_of b) [
    | none ↦ done (err bad_json)
    | some v ↦ unmarshal_batch_response v
  ]

  -- BatchRequest.MarshalJSON, over requests that are not nil
  unfoldable pub serialize_batch_request : List Request → Bool → Result Text
  unfolding text
  serialize_batch_request [] is_batch = err (failure (text "empty batch request"))
  serialize_batch_request (r ∷ rs) false = or_fail (request_text r) bad_json
  serialize_batch_request (r ∷ rs) true = or_fail (requests_text (r ∷ rs)) bad_json

  -- BatchResponse.MarshalJSON, over responses that are not nil
  unfoldable pub serialize_batch_response : List Response → Bool → Result Text
  unfolding text
  serialize_batch_response [] is_batch = err (failure (text "empty batch response"))
  serialize_batch_response (r ∷ rs) false = or_fail (wire_text (to_wire r)) bad_json
  serialize_batch_response (r ∷ rs) true = or_fail (wires_text (map to_wire (r ∷ rs))) bad_json

  -- DecodeResponse: one response
  unfoldable pub decode_response : Text → Result Response
  decode_response b = elim (value_of b) [
    | none ↦ err bad_json
    | some v ↦ elim (response_of v) [
      | none ↦ err bad_json
      | some r ↦ or_fail (check_response r) bad_json
    ]
  ]

  -- SerializeRequest and SerializeResponse
  unfoldable pub serialize_request : Request → Result Text
  serialize_request r = or_fail (request_text r) bad_json

  unfoldable pub serialize_response : Response → Result Text
  serialize_response r = or_fail (wire_text (to_wire r)) bad_json

  -- BatchResponse.GetResponseByID: the first response with that id; a nil entry before it panics.
  unfoldable pub get_response_by_id : Text → List (Option Response) → Outcome (Option Response)
  unfolding text_eq
  get_response_by_id id [] = done none
  get_response_by_id id (r ∷ rs) = do
    res ← deref r
    let rest = get_response_by_id id rs
    if text_eq (id_string string_of res.id) id then done (some res) else rest
