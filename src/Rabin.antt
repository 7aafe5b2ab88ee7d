-- ===== src/Rabin.antt =====
-- rabin.c: the fingerprint of a sender in the key of the vacation database.
mod Table32
mod Table40
mod Table48
mod Table56
mod Table64
mod Table72
mod Table80
mod Table88
pub mod Xor
pub mod Field
pub mod Range
pub mod Entries
pub mod Remainder
pub mod Fingerprint
use Prim.Native.Nat.{bit_xor}
use simvacation.Common.{
  ℕ, zero, suc, ◌*◌, ◌/◌, ◌%◌, ◌^◌, List, [], ◌∷◌, Bytes, length, get_or, take, drop,
}
use Table32.{table32}
use Table40.{table40}
use Table48.{table48}
use Table56.{table56}
use Table64.{table64}
use Table72.{table72}
use Table80.{table80}
use Table88.{table88}

-- `table[(rh >> k) & 0xff]`
abbrev entry : List ℕ → ℕ → ℕ → ℕ
entry table rh k = get_or table (rh / 2 ^ k % 256) 0

unfoldable pub rh_lookup : ℕ → ℕ
rh_lookup rh =
    bit_xor
      (bit_xor
        (bit_xor
          (bit_xor
            (bit_xor
              (bit_xor (bit_xor (entry table32 rh 0) (entry table40 rh 8)) (entry table48 rh 16))
              (entry table56 rh 24))
            (entry table64 rh 32))
          (entry table72 rh 40))
        (entry table80 rh 48))
      (entry table88 rh 56)

-- `(uint64_t)(s[i + j] & 0xff) << k`, for bytes from 0 to 255
abbrev shifted : Bytes → ℕ → ℕ → ℕ
shifted s j k = get_or s j 0 * 2 ^ k

-- The body of the loop over the blocks of eight bytes.
pub fold_block : ℕ → Bytes → ℕ
unfolding rh_lookup
fold_block rh s =
    bit_xor
      (bit_xor
        (bit_xor
          (bit_xor
            (bit_xor
              (bit_xor (bit_xor (bit_xor (rh_lookup rh) (shifted s 0 56)) (shifted s 1 48))
                (shifted s 2 40))
              (shifted s 3 32))
            (shifted s 4 24))
          (shifted s 5 16))
        (shifted s 6 8))
      (get_or s 7 0)

-- `for (i = 0; i < (len % 8); i++)`
pub fold_head : Bytes → ℕ → ℕ
fold_head [] rh = rh
fold_head (c ∷ s) rh = fold_head s (bit_xor (rh * 256 % 2 ^ 64) c)

-- `for (; i < len; i += 8)`: as many rounds as there are blocks left.
pub fold_blocks : ℕ → Bytes → ℕ → ℕ
unfolding fold_block
fold_blocks zero s rh = rh
fold_blocks (suc k) s rh = fold_blocks k (drop 8 s) (fold_block rh s)

unfoldable pub rabin_fingerprint : Bytes → ℕ
unfolding fold_head fold_blocks table32 table40 table48 table56 table64 table72 table80 table88
rabin_fingerprint s =
    let n = length s % 8 in fold_blocks (length s / 8) (drop n s) (fold_head (take n s) 0)
