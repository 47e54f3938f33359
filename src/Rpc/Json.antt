-- ===== src/Rpc/Json.antt =====
-- encoding/json as far as internal/rpc calls it: what json.Unmarshal and json.Marshal do at each
-- type. Nothing is assumed of these functions but where a theorem states a law.
use haprovider.Prelude.{List, Option, ℤ, Text}
use haprovider.Rpc.Message.{Request, Response, Wire}

pub record Json : Type 0 where
  -- The syntax check of json.Unmarshal: the one value of the input, without the space round it.
  pub value_of : Text → Option Text
  -- Unmarshal of an object, and of an array, into requests or responses; null gives a nil pointer.
  -- The ids are raw here: `Batch` validates them, as ID.UnmarshalJSON does.
  pub request_of : Text → Option Request
  pub requests_of : Text → Option (List (Option Request))
  pub response_of : Text → Option Response
  pub responses_of : Text → Option (List (Option Response))
  -- Unmarshal of an error object into RPCError: its code and message.
  pub error_of : Text → Option (ℤ × Text)
  -- Unmarshal into a string
  pub string_of : Text → Option Text
  -- Marshal of a string, which has no error
  pub of_string : Text → Text
  -- Marshal of a request, of a slice of requests, and of the shapes of responses
  pub request_text : Request → Option Text
  pub requests_text : List Request → Option Text
  pub wire_text : Wire → Option Text
  pub wires_text : List Wire → Option Text
  -- Marshal of an RPCError without data
  pub error_text : ℤ → Text → Text
