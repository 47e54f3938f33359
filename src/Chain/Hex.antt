-- ===== src/Chain/Hex.antt =====
-- ParseHexNumber of internal/chain/eth/eth.go, over strconv.ParseUint in base 16.
pub mod Value
use haprovider.Prelude.{
  ℕ, ◌+◌, ◌-◌, ◌*◌, ◌^◌, ◌&&◌, [], ◌∷◌, Option, none, some, ltb, leb, ◌==◌, if◌then◌else◌, Text,
  text, has_prefix, drop,
}
use haprovider.Rpc.Error.{Error, failure}
use haprovider.Rpc.Batch.{Result, ok, err}

-- The value of a hexadecimal digit
abbrev pub hex_digit : ℕ → Option ℕ
hex_digit c =
    if leb b'0' c && leb c b'9'
    then some (c - b'0')
    else if leb b'a' c && leb c b'f'
    then some (c - b'a' + 10)
    else (if leb b'A' c && leb c b'F' then some (c - b'A' + 10) else none)

parse_digits : ℕ → Text → Option ℕ
parse_digits acc [] = some acc
parse_digits acc (c ∷ s) = elim (hex_digit c) [
  | none ↦ none
  | some d ↦ parse_digits (acc * 16 + d) s
]

in_uint64 : Option ℕ → Option ℕ
in_uint64 none = none
in_uint64 (some n) = if ltb n (2 ^ 64) then some n else none

-- strconv.ParseUint(s, 16, 64)
unfoldable pub parse_uint16 : Text → Option ℕ
unfolding parse_digits in_uint64
parse_uint16 [] = none
parse_uint16 (c ∷ s) = in_uint64 (parse_digits 0 (c ∷ s))

below_max : Option ℕ → Result ℕ
unfolding text
below_max none = err (failure [])
below_max (some n) = if n == 2 ^ 64 - 1 then err (failure (text "number is too large")) else ok n

-- ParseHexNumber; the text of an error of strconv is left out.
unfoldable pub parse_hex_number : Text → Result ℕ
unfolding below_max parse_uint16 has_prefix drop text
parse_hex_number hex =
    if has_prefix hex (text "0x")
    then below_max (parse_uint16 (drop 2 hex))
    else err (failure (text "hex number must start with 0x"))
