-- ===== src/CString/Number.antt =====
-- `%lld` of `printf`, for numbers that are not negative, and `strtoll` with base 10.
pub mod RoundTrip
use simvacation.Common.{
  ℕ, zero, suc, ◌+◌, ◌-◌, ◌*◌, ◌/◌, ◌%◌, ◌^◌, Bool, ◌&&◌, [], ◌∷◌, ◌==◌, ltb, leb, if◌then◌else◌,
  Bytes, take, ℤ, pos, negsuc,
}
use simvacation.CString.{char, next, skip_spaces}

-- A number below 10 ^ fuel, with no leading zeros.
decimal_onto : ℕ → ℕ → Bytes → Bytes
decimal_onto zero n out = out
decimal_onto (suc fuel) n out =
    let more = decimal_onto fuel (n / 10) ((48 + n % 10) ∷ out) in
    if n / 10 == 0 then (48 + n) ∷ out else more

-- A `long long` has at most 19 digits.
unfoldable pub decimal : ℕ → Bytes
unfolding decimal_onto
decimal n = decimal_onto 19 n []

-- `snprintf(buf, size, "%lld", n)`: what does not fit is cut, and a NUL is put behind the rest.
abbrev pub snprintf_decimal : ℕ → ℕ → Bytes
snprintf_decimal size n = take (size - 1) (decimal n)

digits_onto : ℕ → Bytes → ℕ
digits_onto v [] = v
digits_onto v (c ∷ s) =
    let rest = digits_onto (v * 10 + (c - b'0')) s in if leb b'0' c && leb c b'9' then rest else v

-- Numbers that do not fit are the greatest or the least one.
positive : ℕ → ℤ
positive v = if ltb v (2 ^ 63) then pos v else pos (2 ^ 63 - 1)

negative : ℕ → ℤ
negative v =
    if v == 0 then pos 0 else if ltb v (2 ^ 63) then negsuc (v - 1) else negsuc (2 ^ 63 - 1)

signed : Bytes → ℤ
unfolding digits_onto positive negative
signed s =
    if char s == b'-'
    then negative (digits_onto 0 (next s))
    else if char s == b'+'
    then positive (digits_onto 0 (next s))
    else positive (digits_onto 0 s)

unfoldable pub strtoll : Bytes → ℤ
unfolding signed
strtoll s = signed (skip_spaces s)
