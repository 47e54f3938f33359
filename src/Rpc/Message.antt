-- ===== src/Rpc/Message.antt =====
-- internal/rpc/request.go and response.go: messages, and the three shapes a response is sent in.
-- A field of raw JSON is its bytes, empty if the field is absent.
pub mod Shapes
use haprovider.Prelude.{
  ℕ, ◌≡◌, Bool, true, false, not, ◌&&◌, List, [], ◌∷◌, ◌++◌, Option, none, some, ℤ, pos,
  if◌then◌else◌, is_empty, Text, text, text_eq, decimal,
}
use haprovider.Rpc.Id.{format_raw_body, id_string}

pub record Request : Type 0 where
  pub version : Text
  pub id : Text
  pub method : Text
  pub params : Text

pub record Response : Type 0 where
  pub version : Text
  pub id : Text
  pub result : Text
  pub method : Text
  pub params : Text
  pub error : Text

-- What Response.MarshalJSON hands to json.Marshal.
pub data Wire : Type 0 where
  notification : (version method params : Text) → Wire
  error_response : (version id error : Text) → Wire
  success_response : (version id result : Text) → Wire

-- Response.MarshalJSON
unfoldable pub to_wire : Response → Wire
to_wire r =
    if not (is_empty r.method)
    then notification r.version r.method r.params
    else if not (is_empty r.error)
    then error_response r.version r.id r.error
    else success_response r.version r.id r.result

-- Response.IsError
unfoldable pub is_error : Response → Bool
unfolding text_eq text
is_error r = not (is_empty r.error) && not (text_eq r.error (text "null"))

-- Response.GetError: the code and the text of the error, over json.Unmarshal into an RPCError.
unfoldable pub get_error : (Text → Option (ℤ × Text)) → Response → ℤ × Text
unfolding decimal text
get_error error_of r = elim (error_of r.error) [
  | none ↦ (pos 0, text "rpc error: " ++ format_raw_body r.error)
  | some (code, message) ↦ (code, text "rpc " ++ (decimal code ++ (text ": " ++ message)))
]
