-- ===== src/Httpx/Total.antt =====
-- A request to a provider does not panic (internal/httpx/httpx.go), if no response is null.
use haprovider.Prelude.{ℕ, Bool, List, [], ◌∷◌, Option, none, some, ℤ, Text, if◌then◌else◌, arith}
use haprovider.Prelude.Outcome.{done, ◌>>=◌, Ends, Ends->>=, NoNil}
use haprovider.Rpc.Error.{
  Error, rate_limited, method_not_supported, try_next_provider, status, canceled, deadline_exceeded,
  no_providers_available, request_too_large, no_provider_for_method, empty_batch, failure,
}
use haprovider.Rpc.Message.{Request, Response}
use haprovider.Rpc.Json.{Json}
use haprovider.Rpc.Batch.{
  BatchResponse, Result, ok, err, decode_batch_response, serialize_batch_request,
}
use haprovider.Rpc.Batch.Total.{IsFilled, NoNullIn, NoNilBatch, Ends-decode_batch_response}
use haprovider.Core.Provider.{Provider}
use haprovider.Core.Endpoint.{Endpoint}
use haprovider.Httpx.{
  Upstream, response_has_error, in_band, on_error, on_decoded, on_sent, on_serialized,
  send_http_request, send_rpc_batch_request,
}

Ends-response_has_error :
    (rs : List (Option Response)) → NoNil rs → Ends (λ b. Unit {0}) (response_has_error rs)
unfolding response_has_error
Ends-response_has_error [] h = tt
Ends-response_has_error (none ∷ rs) h = absurd h
Ends-response_has_error (some r ∷ rs) h = ground (arith, Ends-response_has_error rs h)

-- No body that the upstream answers with has a null in an array of responses.
abbrev pub NoNulls : Json → (ℤ → Text) → Endpoint → Upstream → Type 0
NoNulls json show e upstream =
    (p : Provider) (url body : Text) (now : ℕ)
    → NoNullIn json (send_http_request show e upstream p url body now).1

module _ (json : Json) (filled : IsFilled json) where
  Ends-in_band :
      (error : Error) (r : Result BatchResponse)
      → NoNilBatch r
      → Ends NoNilBatch (in_band json error r)
  unfolding in_band
  Ends-in_band error (err e) h = tt
  Ends-in_band error (ok res) h =
      Ends->>= (λ b. Unit {0}) NoNilBatch (response_has_error res.responses)
        (λ has. done (if has then ok res else err _)) (Ends-response_has_error res.responses h)
        (λ has u. ground arith)

  Ends-decoded :
      (b : Text) (error : Error)
      → NoNullIn json b
      → Ends NoNilBatch (decode_batch_response json b >>= in_band json error)
  Ends-decoded b error clean =
      Ends->>= NoNilBatch NoNilBatch (decode_batch_response json b) (in_band json error)
        (Ends-decode_batch_response json filled b clean) (Ends-in_band error)

  Ends-on_error :
      (b : Text) (error : Error) → NoNullIn json b → Ends NoNilBatch (on_error json b error)
  unfolding on_error
  Ends-on_error b (rate_limited m d) clean = tt
  Ends-on_error b (method_not_supported c m) clean = Ends-decoded b (method_not_supported c m) clean
  Ends-on_error b (try_next_provider m) clean = Ends-decoded b (try_next_provider m) clean
  Ends-on_error b (status c) clean = Ends-decoded b (status c) clean
  Ends-on_error b canceled clean = Ends-decoded b canceled clean
  Ends-on_error b deadline_exceeded clean = Ends-decoded b deadline_exceeded clean
  Ends-on_error b no_providers_available clean = Ends-decoded b no_providers_available clean
  Ends-on_error b request_too_large clean = Ends-decoded b request_too_large clean
  Ends-on_error b (no_provider_for_method ms) clean =
      Ends-decoded b (no_provider_for_method ms) clean
  Ends-on_error b empty_batch clean = Ends-decoded b empty_batch clean
  Ends-on_error b (failure m) clean = Ends-decoded b (failure m) clean

  NoNilBatch-on_decoded :
      (b : Text) (r : Result BatchResponse) → NoNilBatch r → NoNilBatch (on_decoded json b r)
  unfolding on_decoded
  NoNilBatch-on_decoded b (err e) h = tt
  NoNilBatch-on_decoded b (ok res) h = h

  abbrev pub Whole : Provider × Result BatchResponse → Type 0
  Whole r = NoNilBatch r.1

  Ends-on_sent :
      (s : Provider × Text × Option Error) → NoNullIn json s.1 → Ends Whole (on_sent json s)
  unfolding on_sent
  Ends-on_sent (p, b, some error) clean =
      Ends->>= NoNilBatch Whole (on_error json b error) (λ r. done (p, r))
        (Ends-on_error b error clean) (λ r h. h)
  Ends-on_sent (p, b, none) clean =
      Ends->>= NoNilBatch Whole (decode_batch_response json b) (λ r. done (p, on_decoded json b r))
        (Ends-decode_batch_response json filled b clean) (λ r h. NoNilBatch-on_decoded b r h)

  -- Sending a batch does not panic, and no pointer of the response is nil.
  pub Ends-send_rpc_batch_request :
      (show : ℤ → Text) (e : Endpoint) (upstream : Upstream) (p : Provider) (reqs : List Request)
      (is_batch : Bool) (now : ℕ)
      → NoNulls json show e upstream
      → Ends Whole (send_rpc_batch_request json show e upstream p reqs is_batch now)
  unfolding send_rpc_batch_request on_serialized
  Ends-send_rpc_batch_request show e upstream p reqs is_batch now clean =
      of_body (serialize_batch_request json reqs is_batch)
    where
      of_body : (body : Result Text) → Ends Whole (on_serialized json show e upstream p now body)
      of_body (err error) = tt
      of_body (ok body) = Ends-on_sent _ (clean p _ body now)
