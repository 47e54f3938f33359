-- ===== src/Rpc/Id.antt =====
-- internal/rpc/id.go and rpc.go. An id is its raw JSON, empty if it was never set.
pub mod Echo
use haprovider.Prelude.{
  ltb, length, take, join_lines, trim_space, ℕ, ◌≡◌, Bool, true, false, ◌&&◌, ◌||◌, List, [], ◌∷◌,
  ◌++◌, Option, none, some, leb, ◌==◌, if◌then◌else◌, Text, text, text_eq,
}

-- ID.UnmarshalJSON; `none` is its error. The decoder hands it one complete JSON value.
unfoldable pub unmarshal_id : Text → Option Text
unfolding text_eq text
unmarshal_id [] = none
unmarshal_id (c ∷ rest) =
    if c == b'"' || (c == b'-' || (leb b'0' c && leb c b'9'))
    then some (c ∷ rest)
    else if c == b'n'
    then (if text_eq (c ∷ rest) (text "null") then some (c ∷ rest) else none)
    else none

-- ID.MarshalJSON
unfoldable pub marshal_id : Text → Text
unfolding text
marshal_id [] = text "null"
marshal_id (c ∷ rest) = c ∷ rest

-- ID.String; `unquote` is json.Unmarshal into a string.
unfoldable pub id_string : (Text → Option Text) → Text → Text
id_string unquote [] = []
id_string unquote (c ∷ rest) =
    if c == b'"' then elim (unquote (c ∷ rest)) [ none ↦ c ∷ rest | some s ↦ s ] else c ∷ rest

abbrev max_log_body_len : ℕ
max_log_body_len = 512

truncated : Text → Text
unfolding text
truncated body =
    if ltb max_log_body_len (length body)
    then take max_log_body_len body ++ text "... (truncated)"
    else body

-- FormatRawBody
unfoldable pub format_raw_body : Text → Text
unfolding truncated join_lines trim_space
format_raw_body body = trim_space (join_lines (truncated body))
