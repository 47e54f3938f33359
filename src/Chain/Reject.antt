-- ===== src/Chain/Reject.antt =====
-- RejectDisallowed of internal/chain/chain.go.
pub mod Whole
use haprovider.Prelude.{
  Bool, true, false, List, [], ◌∷◌, ◌++◌, Option, none, some, ℤ, if◌then◌else◌, Text, text,
}
use haprovider.Prelude.Outcome.{Outcome, done, panicked, ◌>>=◌, deref}
use haprovider.Rpc.Error.{code_resource_unavailable}
use haprovider.Rpc.Message.{Request, Response}
use haprovider.Rpc.Json.{Json}
use haprovider.Chain.{Chain}
use haprovider.Chain.Methods.{allow_method}

-- The first loop, which breaks at a method that is not allowed.
all_allowed : Chain → List (Option Request) → Outcome Bool
all_allowed c [] = done true
all_allowed c (r ∷ rs) = do
  sub ← deref r
  let rest = all_allowed c rs
  if allow_method c sub.method then rest else done false

module _ (json : Json) where
  -- A response that carries an error of our own
  unfoldable pub error_response_to : Text → ℤ → Text → Response
  unfolding text
  error_response_to id code message = record {
    version = text "2.0";
    id = id;
    result = [];
    method = [];
    params = [];
    error = json.error_text code message;
  }

  unfoldable pub rejection : Chain → Request → Response
  unfolding text
  rejection c sub = error_response_to sub.id code_resource_unavailable (
      if allow_method c sub.method
      then text "request rejected: batch contains a method that is not allowed"
      else text "method not allowed: " ++ sub.method)

  rejections : Chain → List (Option Request) → Outcome (List Response)
  unfolding rejection
  rejections c [] = done []
  rejections c (r ∷ rs) = do sub ← deref r; rest ← rejections c rs; done (rejection c sub ∷ rest)

  reject_unless : Chain → List (Option Request) → Bool → Outcome (Option (List Response))
  reject_unless c reqs true = done none
  reject_unless c reqs false = do responses ← rejections c reqs; done (some responses)

  -- RejectDisallowed: `none` lets the request through.
  unfoldable pub reject_disallowed :
      Option Chain → List (Option Request) → Outcome (Option (List Response))
  unfolding all_allowed rejections reject_unless
  reject_disallowed none reqs = done none
  reject_disallowed (some c) reqs = do allowed ← all_allowed c reqs; reject_unless c reqs allowed
