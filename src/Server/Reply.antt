-- ===== src/Server/Reply.antt =====
-- The functions of internal/http.go that write to the client. Headers set before are an argument.

use haprovider.Prelude.{ℕ, Bool, List, [], none, some, ℤ, if◌then◌else◌, Text, text, Dict, insert}
use haprovider.Rpc.Error.{
  Error, canceled, deadline_exceeded, no_providers_available, request_too_large,
  no_provider_for_method, error_message, code_invalid_request, code_method_not_found,
  code_internal_error, code_no_providers_available,
}
use haprovider.Rpc.Message.{Response, to_wire}
use haprovider.Rpc.Json.{Json}
use haprovider.Rpc.Batch.{Result, ok, err, serialize_batch_response}
use haprovider.Core.Endpoint.{Endpoint}
use haprovider.Chain.Reject.{error_response_to}
use haprovider.Server.{Answer, silent, answer}

unfoldable pub as_json : Dict Text → Dict Text
unfolding text insert
as_json headers = insert (text "Content-Type") (text "application/json; charset=utf-8") headers

-- The X-Provider header, unless the endpoint is public
unfoldable pub name_provider : Endpoint → Text → Dict Text → Dict Text
unfolding text insert
name_provider e provider headers =
    if e.public then headers else insert (text "X-Provider") provider headers

module _ (json : Json) where
  -- rpc.WriteResponse, which writes nothing if the response has no JSON.
  unfoldable pub body_of : Response → Text
  unfolding to_wire
  body_of r = elim (json.wire_text (to_wire r)) [ none ↦ [] | some b ↦ b ]

  -- writeRPCError
  unfoldable pub write_rpc_error : Dict Text → ℕ → ℤ → Text → Answer
  unfolding as_json body_of error_response_to
  write_rpc_error headers status code message =
      answer status (as_json headers) (body_of (error_response_to json [] code message))

  -- writeForwardError
  unfoldable pub write_forward_error : Dict Text → Error → Answer
  unfolding write_rpc_error text error_message
  write_forward_error headers canceled = silent
  write_forward_error headers deadline_exceeded = silent
  write_forward_error headers no_providers_available =
      write_rpc_error headers 503 code_no_providers_available (text "no providers available")
  write_forward_error headers request_too_large =
      write_rpc_error headers 413 code_invalid_request (text "request too large")
  write_forward_error headers (no_provider_for_method methods) =
      write_rpc_error headers 501 code_method_not_found
        (error_message (no_provider_for_method methods))
  write_forward_error headers e =
      write_rpc_error headers 500 code_internal_error (text "request failed")

  write_serialized : Dict Text → Result Text → Answer
  unfolding write_rpc_error as_json text
  write_serialized headers (err e) =
      write_rpc_error headers 500 code_internal_error (text "error serializing response")
  write_serialized headers (ok out) = answer 200 (as_json headers) out

  -- writeBatchResponse, for the name of the provider and the responses with their shape
  unfoldable pub write_batch_response : Dict Text → Endpoint → Text → List Response → Bool → Answer
  unfolding write_serialized name_provider serialize_batch_response
  write_batch_response headers e provider responses is_batch =
      write_serialized (name_provider e provider headers)
        (serialize_batch_response json responses is_batch)

  -- writeMethodNotAllowed
  unfoldable pub write_method_not_allowed : Dict Text → List Response → Bool → Answer
  unfolding write_serialized serialize_batch_response
  write_method_not_allowed headers responses is_batch =
      write_serialized headers (serialize_batch_response json responses is_batch)
