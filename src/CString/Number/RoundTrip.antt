-- ===== src/CString/Number/RoundTrip.antt =====
-- Numbers that are printed are read back.
use simvacation.Common.{
  ℕ, zero, suc, ◌+◌, ◌-◌, ◌*◌, ◌/◌, ◌%◌, ◌^◌, ◌≤◌, ◌<◌, ◌≡◌, refl, sym, ap, ◌∙◌, true, false, ◌&&◌,
  ◌||◌, [], ◌∷◌, ◌==◌, ltb, leb, Bytes, take-all, length, pos, arith, Bool-cases, ==_iff, inl, inr,
}
use native.Mathlib.Nat.{pow-suc}
use simvacation.CString.{isspace, skip_spaces}
use simvacation.CString.Number.{
  decimal_onto, decimal, snprintf_decimal, digits_onto, positive, signed, strtoll,
}

digits_onto_digit :
    (v d : ℕ) (s : Bytes) → d < 10 → digits_onto v ((48 + d) ∷ s) ≡ digits_onto (v * 10 + d) s
unfolding digits_onto
digits_onto_digit v d s h =
    let test : (leb 48 (48 + d) && leb (48 + d) 57) ≡ true = ground arith in
    let e : v * 10 + (48 + d - 48) ≡ v * 10 + d = omega arith in rw (test, e)

first_digit : (n : ℕ) (out : Bytes) → n < 10 → digits_onto 0 ((48 + n) ∷ out) ≡ digits_onto n out
first_digit n out h =
    let e : 0 * 10 + n ≡ n = omega arith in
    digits_onto_digit 0 n out h ∙ ap (λ v. digits_onto v out) e

tenth-lt : (f n : ℕ) → n < 10 ^ suc (suc f) → n / 10 < 10 ^ suc f
tenth-lt f n h = omega (arith, pow-suc 10 (suc f))

-- The digits of a number, in front of others, are read as that number and then the others.
digits_onto-decimal_onto :
    (f n : ℕ) (out : Bytes)
    → n < 10 ^ suc f
    → digits_onto 0 (decimal_onto (suc f) n out) ≡ digits_onto n out
unfolding decimal_onto
digits_onto-decimal_onto zero n out h =
    let t : (n / 10 == 0) ≡ true = ground arith in rw t (first_digit n out h)
digits_onto-decimal_onto (suc f) n out h = elim (Bool-cases (n / 10 == 0)) [
  | inl t ↦
      let small : n / 10 ≡ 0 = (==_iff (n / 10) 0).0 t in rw t (first_digit n out (omega arith))
  | inr b ↦
      let e : n / 10 * 10 + n % 10 ≡ n = omega arith in
      rw b (
        digits_onto-decimal_onto f (n / 10) ((48 + n % 10) ∷ out) (tenth-lt f n h)
        ∙ digits_onto_digit (n / 10) (n % 10) out (omega arith)
        ∙ ap (λ v. digits_onto v out) e)
]

decimal_onto-head :
    (f n : ℕ) (out : Bytes)
    → n < 10 ^ suc f
    → (d : ℕ) × (rest : Bytes) × (decimal_onto (suc f) n out ≡ (48 + d) ∷ rest) × (d < 10)
unfolding decimal_onto
decimal_onto-head zero n out h = let t : (n / 10 == 0) ≡ true = ground arith in (n, out, rw t, h)
decimal_onto-head (suc f) n out h = elim (Bool-cases (n / 10 == 0)) [
  | inl t ↦ let small : n / 10 ≡ 0 = (==_iff (n / 10) 0).0 t in (n, out, rw t, omega arith)
  | inr b ↦ rw b (decimal_onto-head f (n / 10) ((48 + n % 10) ∷ out) (tenth-lt f n h))
]

length-decimal_onto :
    (g f n : ℕ) (out : Bytes) → n < 10 ^ suc f → length (decimal_onto g n out) ≤ suc f + length out
unfolding decimal_onto
length-decimal_onto zero f n out h = omega arith
length-decimal_onto (suc g) zero n out h =
    let t : (n / 10 == 0) ≡ true = ground arith in rw t (omega arith)
length-decimal_onto (suc g) (suc f) n out h = elim (Bool-cases (n / 10 == 0)) [
  | inl t ↦ rw t (omega arith)
  | inr b ↦
      rw b (omega (arith, length-decimal_onto g f (n / 10) ((48 + n % 10) ∷ out) (tenth-lt f n h)))
]

strtoll_digit :
    (d : ℕ) (s : Bytes) → d < 10 → strtoll ((48 + d) ∷ s) ≡ positive (digits_onto 0 ((48 + d) ∷ s))
unfolding strtoll skip_spaces isspace signed
strtoll_digit d s h =
    let space : ((48 + d) == 32 || (leb 9 (48 + d) && leb (48 + d) 13)) ≡ false = ground arith in
    let minus : ((48 + d) == 45) ≡ false = ground arith in
    let plus : ((48 + d) == 43) ≡ false = ground arith in rw (space, minus, plus)

digits_onto-decimal : (n : ℕ) → n < 10 ^ 19 → digits_onto 0 (decimal n) ≡ n
unfolding decimal digits_onto
digits_onto-decimal n h = digits_onto-decimal_onto 18 n [] h

decimal-head :
    (n : ℕ) → n < 10 ^ 19 → (d : ℕ) × (rest : Bytes) × (decimal n ≡ (48 + d) ∷ rest) × (d < 10)
unfolding decimal
decimal-head n h = decimal_onto-head 18 n [] h

length-decimal : (k n : ℕ) → n < 10 ^ suc k → length (decimal n) ≤ suc k + 0
unfolding decimal
length-decimal k n h = length-decimal_onto 19 k n [] h

-- A number that is printed into a buffer is read back from it, if it has fewer digits than the
-- buffer has bytes and is less than 2^63.
pub strtoll-snprintf_decimal :
    (k n : ℕ) → n < 10 ^ suc k → n < 2 ^ 63 → strtoll (snprintf_decimal (suc (suc k)) n) ≡ pos n
unfolding positive
strtoll-snprintf_decimal k n h b =
    let long : n < 10 ^ 19 = omega arith in
    let (d, rest, e, small) = decimal-head n long in
    let test : ltb n (2 ^ 63) ≡ true = ground arith in
    let whole : snprintf_decimal (suc (suc k)) n ≡ decimal n =
      take-all (suc (suc k) - 1) (decimal n) (omega (arith, length-decimal k n h)) in
    ap strtoll (whole ∙ e)
    ∙ strtoll_digit d rest small
    ∙ ap (λ s. positive (digits_onto 0 s)) (sym e)
    ∙ ap positive (digits_onto-decimal n long)
    ∙ rw test refl
