-- ===== src/Core/Time.antt =====
-- package time and strconv as internal/core uses them. A `time.Time` is a number of nanoseconds, 0
-- for the zero time; a `time.Duration` is a signed 64-bit number of nanoseconds.
use haprovider.Prelude.{
  ℕ, ◌+◌, ◌-◌, ◌*◌, ◌%◌, ◌^◌, ◌&&◌, Bool, [], ◌∷◌, Option, none, some, ℤ, pos, negsuc, ltb, leb,
  ◌==◌, if◌then◌else◌, Text,
}

abbrev pub second : ℕ
second = 1000000000

abbrev pub minute : ℕ
minute = 60 * second

abbrev pub hour : ℕ
hour = 60 * minute

-- t.Add(d); a time before the zero time is cut to it.
abbrev pub add_duration : ℕ → ℤ → ℕ
add_duration t (pos n) = t + n
add_duration t (negsuc n) = t - (n + 1)

-- The int64 that n wraps to.
abbrev pub wrap_i64 : ℕ → ℤ
wrap_i64 n = let m = n % 2 ^ 64 in if ltb m (2 ^ 63) then pos m else negsuc (2 ^ 64 - m - 1)

digits_value : ℕ → Text → Option ℕ
digits_value acc [] = some acc
digits_value acc (c ∷ s) =
    let rest = digits_value (acc * 10 + (c - b'0')) s in
    if leb b'0' c && leb c b'9' then rest else none

-- One digit at least, and none but digits.
unfoldable pub digits_number : Text → Option ℕ
unfolding digits_value
digits_number [] = none
digits_number (c ∷ s) = digits_value 0 (c ∷ s)

abbrev in_int64 : Bool → Option ℕ → Option ℤ
in_int64 negative none = none
in_int64 negative (some n) =
    if negative
    then (if leb n (2 ^ 63) then some (if n == 0 then pos 0 else negsuc (n - 1)) else none)
    else (if ltb n (2 ^ 63) then some (pos n) else none)

-- strconv.Atoi; `none` is its error.
unfoldable pub atoi : Text → Option ℤ
unfolding digits_number
atoi [] = none
atoi (c ∷ s) =
    if c == b'-'
    then in_int64 Bool.true (digits_number s)
    else if c == b'+'
    then in_int64 Bool.false (digits_number s)
    else in_int64 Bool.false (digits_number (c ∷ s))
