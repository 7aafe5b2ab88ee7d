-- ===== src/Rabin/Field.antt =====
-- Polynomials over the field of two elements, as the digits of numbers, modulo
-- x ^ 64 + x ^ 4 + x ^ 3 + x + 1: the reference that the fingerprint is compared with.
use Prim.Native.Nat.{bit_xor}
use simvacation.Common.{
  ℕ, zero, suc, ◌+◌, ◌*◌, ◌/◌, ◌%◌, ◌^◌, ◌<◌, ◌≡◌, refl, sym, ap, ◌∙◌, arith, [], ◌∷◌, Bytes,
}
use simvacation.Rabin.Xor.{xor_step, xor_swap, xor-mod, xor-div, xor-bit, zero-xor, xor-zero}

-- The product with x: the digit that leaves 64 bits is put back as x ^ 4 + x ^ 3 + x + 1.
unfoldable pub times_x : ℕ → ℕ
times_x r = bit_xor (r * 2 % 2 ^ 64) (r / 2 ^ 63 % 2 * 27)

unfoldable pub times_x_power : ℕ → ℕ → ℕ
unfolding times_x
times_x_power zero r = r
times_x_power (suc n) r = times_x_power n (times_x r)

-- The bytes, the first one highest, as the coefficients of a polynomial, after those in `r`.
unfoldable pub remainder : ℕ → Bytes → ℕ
unfolding times_x_power
remainder r [] = r
remainder r (c ∷ s) = remainder (bit_xor (times_x_power 8 r) c) s

bit_27 : (x y : ℕ) → x < 2 → y < 2 → (x + y) % 2 * 27 ≡ bit_xor (x * 27) (y * 27)
bit_27 zero y h k = omega (arith, zero-xor (y * 27))
bit_27 (suc zero) zero h k = refl
bit_27 (suc zero) (suc zero) h k = refl
bit_27 (suc zero) (suc (suc y)) h k = absurd (omega arith)
bit_27 (suc (suc x)) y h k = absurd (omega arith)

xor-top :
    (a b : ℕ) → bit_xor a b / 2 ^ 63 % 2 * 27 ≡ bit_xor (a / 2 ^ 63 % 2 * 27) (b / 2 ^ 63 % 2 * 27)
xor-top a b =
    ap (λ u. u % 2 * 27) (xor-div 63 a b)
    ∙ ap (λ u. u * 27) (xor-bit (a / 2 ^ 63) (b / 2 ^ 63))
    ∙ omega (arith, bit_27 (a / 2 ^ 63 % 2) (b / 2 ^ 63 % 2) (omega arith) (omega arith))

half_double : (a : ℕ) → a * 2 / 2 ≡ a
half_double a = omega arith

xor-double : (a b : ℕ) → bit_xor a b * 2 ≡ bit_xor (a * 2) (b * 2)
xor-double a b = sym (
    xor_step (a * 2) (b * 2)
    ∙ ap (λ u. u * 2 + (a * 2 + b * 2) % 2)
        (ap (λ u. bit_xor u (b * 2 / 2)) (half_double a) ∙ ap (bit_xor a) (half_double b))
    ∙ omega arith)

pub times_x-xor : (a b : ℕ) → times_x (bit_xor a b) ≡ bit_xor (times_x a) (times_x b)
unfolding times_x
times_x-xor a b =
    ap (λ u. bit_xor (u % 2 ^ 64) (bit_xor a b / 2 ^ 63 % 2 * 27)) (xor-double a b)
    ∙ ap (λ u. bit_xor u (bit_xor a b / 2 ^ 63 % 2 * 27)) (xor-mod 64 (a * 2) (b * 2))
    ∙ ap (bit_xor (bit_xor (a * 2 % 2 ^ 64) (b * 2 % 2 ^ 64))) (xor-top a b)
    ∙ xor_swap (a * 2 % 2 ^ 64) (b * 2 % 2 ^ 64) _ _

pub times_x_power-xor :
    (n a b : ℕ) → times_x_power n (bit_xor a b) ≡ bit_xor (times_x_power n a) (times_x_power n b)
unfolding times_x_power
times_x_power-xor zero a b = refl
times_x_power-xor (suc n) a b =
    ap (times_x_power n) (times_x-xor a b) ∙ times_x_power-xor n (times_x a) (times_x b)

pub times_x_power-add : (n k r : ℕ) → times_x_power n (times_x_power k r) ≡ times_x_power (k + n) r
unfolding times_x_power
times_x_power-add n zero r = let e : n ≡ 0 + n = omega arith in ap (λ m. times_x_power m r) e
times_x_power-add n (suc k) r =
    let e : suc (k + n) ≡ suc k + n = omega arith in
    times_x_power-add n k (times_x r) ∙ ap (λ m. times_x_power m r) e

-- Nothing leaves the 64 bits.
times_x_small : (r : ℕ) → r < 2 ^ 63 → times_x r ≡ r * 2
unfolding times_x
times_x_small r h =
    let top : r / 2 ^ 63 % 2 * 27 ≡ 0 = omega arith in
    ap (bit_xor (r * 2 % 2 ^ 64)) top ∙ xor-zero (r * 2 % 2 ^ 64) ∙ omega arith

pub times_x_power_byte : (r : ℕ) → r < 2 ^ 56 → times_x_power 8 r ≡ r * 256
unfolding times_x_power
times_x_power_byte r h =
    rw (times_x_small r (omega arith), times_x_small (r * 2) (omega arith))
      (rw (times_x_small (r * 2 * 2) (omega arith), times_x_small (r * 2 * 2 * 2) (omega arith))
        (rw
          (
            times_x_small (r * 2 * 2 * 2 * 2) (omega arith),
            times_x_small (r * 2 * 2 * 2 * 2 * 2) (omega arith),
          )
          (rw
            (
              times_x_small (r * 2 * 2 * 2 * 2 * 2 * 2) (omega arith),
              times_x_small (r * 2 * 2 * 2 * 2 * 2 * 2 * 2) (omega arith),
            )
            (omega arith))))
