-- ===== src/Chain/Nodes.antt =====
-- What the Healthcheck methods of the chains share: the requests that they send, and how they read
-- a response by its id (internal/rpc/request.go, response.go, batch.go).
pub mod Ethereum
pub mod Solana
pub mod Tron
pub mod Bitcoin
pub mod Sound
pub mod Synced
pub mod Ask
use haprovider.Prelude.{
  ◌≡◌, refl, ℕ, Bool, true, false, List, [], ◌∷◌, ◌++◌, Option, none, some, ℤ, if◌then◌else◌, Text,
  text,
}
use haprovider.Prelude.Outcome.{Outcome, done, panicked}
use haprovider.Rpc.Error.{Error, error_message, failure}
use haprovider.Rpc.Message.{Request, Response, is_error, get_error}
use haprovider.Rpc.Json.{Json}
use haprovider.Rpc.Batch.{
  BatchRequest, BatchResponse, Result, ok, err, or_fail, bad_json, get_response_by_id,
}

-- A check that has nothing to return but an error
abbrev pub Checked : Type 0
Checked = Result (Unit {0})

-- Code that may panic, or return an error.
infixl 5 ◌>>=◌
abbrev pub ◌>>=◌ {ℓ κ} :
    {A : Type ℓ} {B : Type κ} → Outcome (Result A) → (A → Outcome (Result B)) → Outcome (Result B)
panicked >>= f = panicked
done (err e) >>= f = done (err e)
done (ok a) >>= f = f a

-- fmt.Errorf("... %w", err)
abbrev pub wrapped {ℓ} : {A : Type ℓ} → Text → Result A → Result A
wrapped what (ok a) = ok a
wrapped what (err e) = err (failure (what ++ error_message e))

module _ (json : Json) where
  -- NewRequest: `params` is what json.Marshal writes for them, and empty for nil.
  unfoldable pub new_request : Text → Text → Text → Request
  unfolding text
  new_request id method params = record {
    version = text "2.0";
    id = json.of_string id;
    method = method;
    params = params;
  }

  -- DecodeResult; `decode` is json.Unmarshal into its type.
  unfoldable pub decode_result {ℓ} : {A : Type ℓ} → (Text → Option A) → Option Response → Result A
  unfolding text
  decode_result decode none = err (failure (text "response is nil"))
  decode_result decode (some r) =
      if is_error r
      then err (failure (get_error json.error_of r).1)
      else or_fail (decode r.result) bad_json

  -- A result as the response with an id reports it.
  unfoldable pub report {ℓ} :
      {A : Type ℓ} → (Text → Option A) → Text → Text → BatchResponse → Outcome (Result A)
  unfolding decode_result
  report decode id what res = elim (get_response_by_id json id res.responses) [
    | panicked ↦ panicked
    | done r ↦ done (wrapped what (decode_result decode r))
  ]

-- A chain of steps that ends well: its first step did.
pub >>=-ok {ℓ κ} :
    {A : Type ℓ} {B : Type κ} (m : Outcome (Result A)) (f : A → Outcome (Result B)) {b : B}
    → (m >>= f) ≡ done (ok b)
    → (a : A) × (m ≡ done (ok a)) × (f a ≡ done (ok b))
>>=-ok panicked f h = cc
>>=-ok (done (err e)) f h = cc
>>=-ok (done (ok a)) f h = (a, refl, h)
