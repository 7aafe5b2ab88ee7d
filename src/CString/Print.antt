-- ===== src/CString/Print.antt =====
-- What `printf` prints for `%lx`, `%x` and `%s`.
use simvacation.Common.{
  ◌<◌, ◌≢◌, All, Bool-cases, inl, inr, ==_iff, arith, ℕ, zero, suc, ◌+◌, ◌/◌, ◌%◌, Option, none,
  some, [], ◌∷◌, ◌==◌, ltb, if◌then◌else◌, Bytes, codes,
}

abbrev hex_digit : ℕ → ℕ
hex_digit d = if ltb d 10 then 48 + d else 87 + d

-- A number below 16 ^ fuel, with no leading zeros.
hex_onto : ℕ → ℕ → Bytes → Bytes
hex_onto zero n out = out
hex_onto (suc fuel) n out =
    let more = hex_onto fuel (n / 16) (hex_digit (n % 16) ∷ out) in
    if n / 16 == 0 then hex_digit n ∷ out else more

-- `%lx` of a number below 2 ^ 64: 16 digits are enough.
unfoldable pub hex : ℕ → Bytes
unfolding hex_onto
hex n = hex_onto 16 n []

-- `%s`: the GNU library prints `(null)` for `NULL`.
unfoldable pub shown : Option Bytes → Bytes
shown none = codes "(null)"
shown (some s) = s

digit : (d : ℕ) → d < 16 → hex_digit d ≢ b'\n'
digit d h = ground arith

hex_onto-OneLine :
    (fuel n : ℕ) (out : Bytes)
    → All (λ c. c ≢ b'\n') out
    → All (λ c. c ≢ b'\n') (hex_onto fuel n out)
unfolding hex_onto
hex_onto-OneLine zero n out h = h
hex_onto-OneLine (suc fuel) n out h = elim (Bool-cases (n / 16 == 0)) [
  | inl t ↦ rw t (digit n (omega (arith, (==_iff (n / 16) 0).0 t)), h)
  | inr f ↦
      rw f (
        hex_onto-OneLine fuel (n / 16) (hex_digit (n % 16) ∷ out) (digit (n % 16) (omega arith), h))
]

-- The digits are no newlines.
pub hex-OneLine : (n : ℕ) → All (λ c. c ≢ b'\n') (hex n)
unfolding hex
hex-OneLine n = hex_onto-OneLine 16 n [] tt
