-- ===== src/Rabin/Fingerprint.antt =====
-- `rabin_fingerprint`: the fingerprint of all bytes, and the remainder of their polynomial.
use Prim.Native.Nat.{bit_xor}
use native.Mathlib.Nat.{mul-le-mul_left, mul-le-mul_right}
use simvacation.Common.{
  ℕ, zero, suc, ◌+◌, ◌*◌, ◌/◌, ◌%◌, ◌^◌, ◌≤◌, ◌<◌, ◌≡◌, refl, sym, ap, ◌∙◌, arith, [], ◌∷◌, ◌++◌,
  Bytes, length, take, drop, All, take-append-drop, length-take, length-drop,
}
use simvacation.Rabin.{fold_block, fold_head, fold_blocks, rabin_fingerprint}
use simvacation.Rabin.Xor.{xor_disjoint, xor_comm}
use simvacation.Rabin.Field.{times_x_power, times_x_power_byte, remainder}
use simvacation.Rabin.Remainder.{fold_block-remainder}

abbrev pub AreBytes : Bytes → Type 0
AreBytes = All (λ c. c < 256)

remainder-append : (r : ℕ) (s t : Bytes) → remainder r (s ++ t) ≡ remainder (remainder r s) t
unfolding remainder
remainder-append r [] t = refl
remainder-append r (c ∷ s) t = remainder-append (bit_xor (times_x_power 8 r) c) s t

fold_blocks-remainder :
    (k : ℕ) (s : Bytes) (r : ℕ) → length s ≡ 8 * k → AreBytes s → fold_blocks k s r ≡ remainder r s
unfolding fold_blocks
fold_blocks-remainder zero [] r e h = unfold remainder in refl
fold_blocks-remainder zero (c ∷ s) r e h = absurd (omega arith)
fold_blocks-remainder (suc k) (c0 ∷ c1 ∷ c2 ∷ c3 ∷ c4 ∷ c5 ∷ c6 ∷ c7 ∷ s) r e h =
    fold_blocks-remainder k s (fold_block r (c0 ∷ c1 ∷ c2 ∷ c3 ∷ c4 ∷ c5 ∷ c6 ∷ c7 ∷ s))
      (omega arith) h.1.1.1.1.1.1.1.1
    ∙ fold_block-remainder r c0 c1 c2 c3 c4 c5 c6 c7 s h
fold_blocks-remainder (suc k) _ r e h = absurd (omega arith)

abbrev room : ℕ → ℕ
room zero = 1
room (suc n) = 256 * room n

room_pos : (n : ℕ) → 1 ≤ room n
room_pos zero = omega arith
room_pos (suc n) = omega (arith, room_pos n)

add_byte : (r c : ℕ) → c < 256 → bit_xor (r * 256) c ≡ r * 256 + c
add_byte r c h = xor_comm (r * 256) c ∙ xor_disjoint 8 c r (omega arith) ∙ omega arith

fits_one : (m n : ℕ) → m * room n ≤ 2 ^ 56 → m * 1 ≤ 2 ^ 56
fits_one m n h = omega (arith, mul-le-mul_left m (room_pos n))

-- The bytes in front of the first block fit 56 bits, with nothing to reduce.
fold_head-remainder :
    (s : Bytes) (r : ℕ)
    → (r + 1) * room (length s) ≤ 2 ^ 56
    → AreBytes s
    → fold_head s r ≡ remainder r s
unfolding fold_head remainder
fold_head-remainder [] r e h = refl
fold_head-remainder (c ∷ s) r e h =
    let shifted : (r + 1) * room (length (c ∷ s)) ≡ (r + 1) * 256 * room (length s) =
      ground arith in
    let fits : (r + 1) * 256 * 1 ≤ 2 ^ 56 =
      fits_one ((r + 1) * 256) (length s) (omega (arith, shifted)) in
    let small : r < 2 ^ 56 = omega arith in
    let byte = times_x_power_byte r small in
    let cut : r * 256 % 2 ^ 64 ≡ r * 256 = omega arith in
    let step : bit_xor (r * 256 % 2 ^ 64) c ≡ bit_xor (times_x_power 8 r) c =
      ap (λ u. bit_xor u c) (cut ∙ sym byte) in
    let value : bit_xor (times_x_power 8 r) c ≡ r * 256 + c =
      ap (λ u. bit_xor u c) byte ∙ add_byte r c h.0 in
    let less : (bit_xor (times_x_power 8 r) c + 1) * room (length s)
        ≤ (r + 1) * 256 * room (length s) =
      mul-le-mul_right (room (length s)) (omega (arith, value, h.0)) in
    ap (fold_head s) step
    ∙ fold_head-remainder s (bit_xor (times_x_power 8 r) c) (omega (arith, less, shifted)) h.1

room_small : (n : ℕ) → n < 8 → room n ≤ 2 ^ 56
room_small zero h = omega arith
room_small (suc zero) h = omega arith
room_small (suc (suc zero)) h = omega arith
room_small (suc (suc (suc zero))) h = omega arith
room_small (suc (suc (suc (suc zero)))) h = omega arith
room_small (suc (suc (suc (suc (suc zero))))) h = omega arith
room_small (suc (suc (suc (suc (suc (suc zero)))))) h = omega arith
room_small (suc (suc (suc (suc (suc (suc (suc zero))))))) h = omega arith
room_small (suc (suc (suc (suc (suc (suc (suc (suc n)))))))) h = absurd (omega arith)

take-AreBytes : (n : ℕ) (s : Bytes) → AreBytes s → AreBytes (take n s)
take-AreBytes zero s h = tt
take-AreBytes (suc n) [] h = tt
take-AreBytes (suc n) (c ∷ s) h = (h.0, take-AreBytes n s h.1)

drop-AreBytes : (n : ℕ) (s : Bytes) → AreBytes s → AreBytes (drop n s)
drop-AreBytes zero s h = h
drop-AreBytes (suc n) [] h = tt
drop-AreBytes (suc n) (c ∷ s) h = drop-AreBytes n s h.1

-- The fingerprint of any bytes, computed from the tables eight bytes at a time, is what the bytes
-- one by one give: the remainder of their polynomial modulo x ^ 64 + x ^ 4 + x ^ 3 + x + 1.
pub rabin_fingerprint-remainder : (s : Bytes) → AreBytes s → rabin_fingerprint s ≡ remainder 0 s
unfolding rabin_fingerprint
rabin_fingerprint-remainder s h =
    let n = length s % 8 in
    let blocks : length (drop n s) ≡ 8 * (length s / 8) = omega (arith, length-drop n s) in
    let short : length (take n s) < 8 = omega (arith, length-take n s) in
    let head =
      fold_head-remainder (take n s) 0 (omega (arith, room_small (length (take n s)) short))
        (take-AreBytes n s h) in
    fold_blocks-remainder (length s / 8) (drop n s) (fold_head (take n s) 0) blocks
      (drop-AreBytes n s h)
    ∙ ap (λ u. remainder u (drop n s)) head
    ∙ sym (remainder-append 0 (take n s) (drop n s))
    ∙ ap (remainder 0) (take-append-drop n s)
