-- ===== src/Chain/Hex/Value.antt =====
-- ParseHexNumber reads the value of its digits (internal/chain/eth/eth.go).
use haprovider.Prelude.{
  ℕ, ◌+◌, ◌-◌, ◌*◌, ◌^◌, ◌≡◌, ◌<◌, refl, List, [], ◌∷◌, map, some, ltb, if◌then◌else◌, text, arith,
}
use haprovider.Rpc.Batch.{ok}
use haprovider.Chain.Hex.{hex_digit, parse_digits, parse_hex_number}

-- The character of a digit, in lower case
abbrev pub digit : ℕ → ℕ
digit d = if ltb d 10 then b'0' + d else b'a' + (d - 10)

-- The number that the digits stand for, the first one the most significant, behind `acc`
abbrev pub value : ℕ → List ℕ → ℕ
value acc [] = acc
value acc (d ∷ ds) = value (acc * 16 + d) ds

abbrev pub AllDigits : List ℕ → Type 0
AllDigits [] = Unit
AllDigits (d ∷ ds) = (d < 16) × AllDigits ds

hex_digit-digit : (d : ℕ) → d < 16 → hex_digit (digit d) ≡ some d
hex_digit-digit d h = ground arith

parse_digits-map :
    (acc : ℕ) (ds : List ℕ) → AllDigits ds → parse_digits acc (map digit ds) ≡ some (value acc ds)
unfolding parse_digits
parse_digits-map acc [] h = refl
parse_digits-map acc (d ∷ ds) h =
    rw (hex_digit-digit d h.0, parse_digits) (parse_digits-map (acc * 16 + d) ds h.1)

-- Any number of hexadecimal digits, but at least one, behind 0x is read as the number that they
-- stand for, if that is below 2^64 - 1.
pub parse_hex_number-value :
    (d : ℕ) (ds : List ℕ)
    → AllDigits (d ∷ ds)
    → value 0 (d ∷ ds) < 2 ^ 64 - 1
    → parse_hex_number (b'0' ∷ b'x' ∷ map digit (d ∷ ds)) ≡ ok (value 0 (d ∷ ds))
unfolding parse_hex_number text
parse_hex_number-value d ds h small = ground (arith, parse_digits-map 0 (d ∷ ds) h)
