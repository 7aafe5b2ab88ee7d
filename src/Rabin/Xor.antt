-- ===== src/Rabin/Xor.antt =====
-- Laws of the exclusive or of numbers.
use Prim.Native.Nat.{bit_xor, digits, differ, bit_xor-bitwise}
use native.Mathlib.Nat.{div-div-eq-div-mul, div-add-mod', pow-succ'}
use simvacation.Common.{
  ℕ, zero, suc, ◌+◌, ◌*◌, ◌/◌, ◌%◌, ◌^◌, ◌≤◌, ◌<◌, ◌≡◌, refl, sym, ap, ◌∙◌, arith,
}

abbrev xor_digits : ℕ → ℕ → ℕ → ℕ
xor_digits n a b = digits (λ b. b) differ n a b

xor_digits_fuel : (n m a b : ℕ) → a ≤ n → a ≤ m → xor_digits n a b ≡ xor_digits m a b
xor_digits_fuel zero zero a b p q = refl
xor_digits_fuel zero (suc m) zero b p q = refl
xor_digits_fuel zero (suc m) (suc a) b p q = absurd (omega arith)
xor_digits_fuel (suc n) zero zero b p q = refl
xor_digits_fuel (suc n) zero (suc a) b p q = absurd (omega arith)
xor_digits_fuel (suc n) (suc m) zero b p q = refl
xor_digits_fuel (suc n) (suc m) (suc a) b p q =
    ap (λ u. u * 2 + differ (suc a % 2) (b % 2))
      (xor_digits_fuel n m (suc a / 2) (b / 2) (omega arith) (omega arith))

differ_bits : (x y : ℕ) → x < 2 → y < 2 → differ x y ≡ (x + y) % 2
differ_bits zero zero h k = refl
differ_bits zero (suc zero) h k = refl
differ_bits zero (suc (suc y)) h k = absurd (omega arith)
differ_bits (suc zero) zero h k = refl
differ_bits (suc zero) (suc zero) h k = refl
differ_bits (suc zero) (suc (suc y)) h k = absurd (omega arith)
differ_bits (suc (suc x)) y h k = absurd (omega arith)

pub zero-xor : (b : ℕ) → bit_xor 0 b ≡ b
zero-xor b = bit_xor-bitwise 0 b

-- The lowest digit, and the others.
pub xor_step : (a b : ℕ) → bit_xor a b ≡ bit_xor (a / 2) (b / 2) * 2 + (a + b) % 2
xor_step zero b = omega (arith, zero-xor b, zero-xor (b / 2))
xor_step (suc a) b =
    bit_xor-bitwise (suc a) b
    ∙ ap (λ u. u * 2 + differ (suc a % 2) (b % 2))
        (xor_digits_fuel a (suc a / 2) (suc a / 2) (b / 2) (omega arith) (omega arith)
          ∙ sym (bit_xor-bitwise (suc a / 2) (b / 2)))
    ∙ omega (arith, differ_bits (suc a % 2) (b % 2) (omega arith) (omega arith))

xor-zero_fuel : (n a : ℕ) → a ≤ n → bit_xor a 0 ≡ a
xor-zero_fuel n zero h = zero-xor 0
xor-zero_fuel zero (suc a) h = absurd (omega arith)
xor-zero_fuel (suc n) (suc a) h =
    omega (arith, xor_step (suc a) 0, xor-zero_fuel n (suc a / 2) (omega arith))

pub xor-zero : (a : ℕ) → bit_xor a 0 ≡ a
xor-zero a = xor-zero_fuel a a (omega arith)

xor_comm_fuel : (n a b : ℕ) → a ≤ n → bit_xor a b ≡ bit_xor b a
xor_comm_fuel n zero b h = zero-xor b ∙ sym (xor-zero b)
xor_comm_fuel zero (suc a) b h = absurd (omega arith)
xor_comm_fuel (suc n) (suc a) b h = omega (
  arith,
  xor_step (suc a) b,
  xor_step b (suc a),
  xor_comm_fuel n (suc a / 2) (b / 2) (omega arith),
)

pub xor_comm : (a b : ℕ) → bit_xor a b ≡ bit_xor b a
xor_comm a b = xor_comm_fuel a a b (omega arith)

pub xor-half : (a b : ℕ) → bit_xor a b / 2 ≡ bit_xor (a / 2) (b / 2)
xor-half a b = omega (arith, xor_step a b)

pub xor-bit : (a b : ℕ) → bit_xor a b % 2 ≡ (a + b) % 2
xor-bit a b = omega (arith, xor_step a b)

xor_assoc_fuel : (n a b c : ℕ) → a ≤ n → bit_xor (bit_xor a b) c ≡ bit_xor a (bit_xor b c)
xor_assoc_fuel n zero b c h = ap (λ u. bit_xor u c) (zero-xor b) ∙ sym (zero-xor (bit_xor b c))
xor_assoc_fuel zero (suc a) b c h = absurd (omega arith)
xor_assoc_fuel (suc n) (suc a) b c h =
    let left =
      xor_step (bit_xor (suc a) b) c
      ∙ ap (λ u. bit_xor u (c / 2) * 2 + (bit_xor (suc a) b + c) % 2) (xor-half (suc a) b) in
    let right =
      xor_step (suc a) (bit_xor b c)
      ∙ ap (λ u. bit_xor (suc a / 2) u * 2 + (suc a + bit_xor b c) % 2) (xor-half b c) in
    omega (
      arith,
      left,
      right,
      xor-bit (suc a) b,
      xor-bit b c,
      xor_assoc_fuel n (suc a / 2) (b / 2) (c / 2) (omega arith),
    )

pub xor_assoc : (a b c : ℕ) → bit_xor (bit_xor a b) c ≡ bit_xor a (bit_xor b c)
xor_assoc a b c = xor_assoc_fuel a a b c (omega arith)

-- (a ^ b) ^ (c ^ d), with the middle ones in the other order.
pub xor_swap :
    (a b c d : ℕ) → bit_xor (bit_xor a b) (bit_xor c d) ≡ bit_xor (bit_xor a c) (bit_xor b d)
xor_swap a b c d =
    xor_assoc a b (bit_xor c d)
    ∙ ap (bit_xor a)
        (sym (xor_assoc b c d) ∙ ap (λ u. bit_xor u d) (xor_comm b c) ∙ xor_assoc c b d)
    ∙ sym (xor_assoc a c (bit_xor b d))

half-power : (a k : ℕ) → a / 2 / 2 ^ k ≡ a / 2 ^ suc k
half-power a k = div-div-eq-div-mul a 2 (2 ^ k) ∙ ap (λ u. a / u) (sym (pow-succ' 2 k))

div_one : (a : ℕ) → a / 2 ^ 0 ≡ a
div_one a = omega arith

pub xor-div : (k a b : ℕ) → bit_xor a b / 2 ^ k ≡ bit_xor (a / 2 ^ k) (b / 2 ^ k)
xor-div zero a b =
    div_one (bit_xor a b)
    ∙ sym (ap (bit_xor (a / 2 ^ 0)) (div_one b) ∙ ap (λ u. bit_xor u b) (div_one a))
xor-div (suc k) a b =
    sym (half-power (bit_xor a b) k)
    ∙ ap (λ u. u / 2 ^ k) (xor-half a b)
    ∙ xor-div k (a / 2) (b / 2)
    ∙ ap (λ u. bit_xor u (b / 2 / 2 ^ k)) (half-power a k)
    ∙ ap (bit_xor (a / 2 ^ suc k)) (half-power b k)

double : (q m : ℕ) → q * (2 * m) ≡ q * m * 2
double q m = ground arith

xor_disjoint_zero : (a b : ℕ) → a ≡ 0 → bit_xor a (b * 2 ^ 0) ≡ a + b * 2 ^ 0
xor_disjoint_zero a b h = ap (λ u. bit_xor u (b * 2 ^ 0)) h ∙ zero-xor (b * 2 ^ 0) ∙ omega arith

-- The lowest k + 1 digits.
mod-power : (a k : ℕ) → a % 2 ^ suc k ≡ a / 2 % 2 ^ k * 2 + a % 2
mod-power a k =
    let q = a / 2 / 2 ^ k in
    let whole : a / 2 ^ suc k * 2 ^ suc k ≡ q * 2 ^ k * 2 =
      ap (λ u. u * 2 ^ suc k) (sym (half-power a k))
      ∙ ap (λ u. q * u) (pow-succ' 2 k)
      ∙ double q (2 ^ k) in
    omega (arith, whole, div-add-mod' a (2 ^ suc k), div-add-mod' (a / 2) (2 ^ k))

mod_one : (a : ℕ) → a % 2 ^ 0 ≡ 0
mod_one a = omega arith

pub xor-mod : (k a b : ℕ) → bit_xor a b % 2 ^ k ≡ bit_xor (a % 2 ^ k) (b % 2 ^ k)
xor-mod zero a b =
    mod_one (bit_xor a b)
    ∙ sym (ap (bit_xor (a % 2 ^ 0)) (mod_one b) ∙ ap (λ u. bit_xor u 0) (mod_one a) ∙ zero-xor 0)
xor-mod (suc k) a b =
    let low = xor_step (a % 2 ^ suc k) (b % 2 ^ suc k) in
    let half : (c : ℕ) → c % 2 ^ suc k / 2 ≡ c / 2 % 2 ^ k = λ c. omega (arith, mod-power c k) in
    omega (
      arith,
      mod-power (bit_xor a b) k,
      ap (λ u. u % 2 ^ k) (xor-half a b),
      xor-mod k (a / 2) (b / 2),
      xor-bit a b,
      low,
      ap (λ u. bit_xor u (b % 2 ^ suc k / 2)) (half a),
      ap (λ u. bit_xor (a / 2 % 2 ^ k) u) (half b),
      mod-power a k,
      mod-power b k,
    )

-- Digits that do not meet are put together.
pub xor_disjoint : (k a b : ℕ) → a < 2 ^ k → bit_xor a (b * 2 ^ k) ≡ a + b * 2 ^ k
xor_disjoint zero a b h = xor_disjoint_zero a b (omega arith)
xor_disjoint (suc k) a b h =
    let shift : b * 2 ^ suc k ≡ b * 2 ^ k * 2 =
      ap (λ u. b * u) (pow-succ' 2 k) ∙ double b (2 ^ k) in
    let half : b * 2 ^ suc k / 2 ≡ b * 2 ^ k = omega (arith, shift) in
    omega (
      arith,
      shift,
      xor_step a (b * 2 ^ suc k),
      ap (bit_xor (a / 2)) half,
      xor_disjoint k (a / 2) b (omega (arith, pow-succ' 2 k)),
    )
