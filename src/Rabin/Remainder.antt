-- ===== src/Rabin/Remainder.antt =====
-- Eight bytes at once: the body of the loop, and the bytes one by one.
use Prim.Native.Nat.{bit_xor}
use simvacation.Common.{
  ℕ, zero, suc, ◌+◌, ◌*◌, ◌/◌, ◌%◌, ◌^◌, ◌<◌, ◌≡◌, refl, sym, ap, ◌∙◌, arith, List, [], ◌∷◌, ◌++◌,
  map, Bytes, get_or, All,
}
use simvacation.Rabin.{rh_lookup, fold_block}
use simvacation.Rabin.Xor.{xor_disjoint}
use simvacation.Rabin.Field.{
  times_x, times_x_power, times_x_power-xor, times_x_power-add, times_x_power_byte, remainder,
}
use simvacation.Rabin.Table32.{table32}
use simvacation.Rabin.Table40.{table40}
use simvacation.Rabin.Table48.{table48}
use simvacation.Rabin.Table56.{table56}
use simvacation.Rabin.Table64.{table64}
use simvacation.Rabin.Table72.{table72}
use simvacation.Rabin.Table80.{table80}
use simvacation.Rabin.Table88.{table88}
use simvacation.Rabin.Entries.{
  table32-power, table40-power, table48-power, table56-power, table64-power, table72-power,
  table80-power, table88-power,
}

-- One more byte of a number, through the table for its place.
lookup_step :
    (k r next : ℕ) (table : List ℕ)
    → ((b : ℕ) → b < 256 → times_x_power 64 (b * 2 ^ k) ≡ get_or table b 0)
    → r % 2 ^ k < 2 ^ k
    → r % 2 ^ k + r / 2 ^ k % 256 * 2 ^ k ≡ next
    → {lower : ℕ} → times_x_power 64 (r % 2 ^ k) ≡ lower
    → times_x_power 64 next ≡ bit_xor lower (get_or table (r / 2 ^ k % 256) 0)
lookup_step k r next table entries below e f =
    ap (times_x_power 64) (sym (xor_disjoint k (r % 2 ^ k) (r / 2 ^ k % 256) below ∙ e))
    ∙ times_x_power-xor 64 (r % 2 ^ k) (r / 2 ^ k % 256 * 2 ^ k)
    ∙ ap (bit_xor (times_x_power 64 (r % 2 ^ k))) (entries (r / 2 ^ k % 256) (omega arith))
    ∙ ap (λ u. bit_xor u (get_or table (r / 2 ^ k % 256) 0)) f

first_byte : (r : ℕ) → r % 2 ^ 8 ≡ r / 2 ^ 0 % 256 * 2 ^ 0
first_byte r = omega arith

times_x_power-mod : (r : ℕ) → times_x_power 64 (r % 2 ^ 64) ≡ times_x_power 64 r
unfolding times_x_power times_x
times_x_power-mod r =
    let low : r % 2 ^ 64 * 2 % 2 ^ 64 ≡ r * 2 % 2 ^ 64 = omega arith in
    let top : r % 2 ^ 64 / 2 ^ 63 % 2 * 27 ≡ r / 2 ^ 63 % 2 * 27 = omega arith in
    ap (λ u. times_x_power 63 (bit_xor u (r % 2 ^ 64 / 2 ^ 63 % 2 * 27))) low
    ∙ ap (λ u. times_x_power 63 (bit_xor (r * 2 % 2 ^ 64) u)) top

-- The tables multiply by x ^ 64.
pub rh_lookup-power : (r : ℕ) → rh_lookup r ≡ times_x_power 64 r
unfolding rh_lookup
rh_lookup-power r =
    let b1 : times_x_power 64 (r % 2 ^ 8) ≡ get_or table32 (r / 2 ^ 0 % 256) 0 =
      ap (times_x_power 64) (first_byte r) ∙ table32-power (r / 2 ^ 0 % 256) (omega arith) in
    let b2 = lookup_step 8 r (r % 2 ^ 16) table40 table40-power (omega arith) (omega arith) b1 in
    let b3 = lookup_step 16 r (r % 2 ^ 24) table48 table48-power (omega arith) (omega arith) b2 in
    let b4 = lookup_step 24 r (r % 2 ^ 32) table56 table56-power (omega arith) (omega arith) b3 in
    let b5 = lookup_step 32 r (r % 2 ^ 40) table64 table64-power (omega arith) (omega arith) b4 in
    let b6 = lookup_step 40 r (r % 2 ^ 48) table72 table72-power (omega arith) (omega arith) b5 in
    let b7 = lookup_step 48 r (r % 2 ^ 56) table80 table80-power (omega arith) (omega arith) b6 in
    let b8 = lookup_step 56 r (r % 2 ^ 64) table88 table88-power (omega arith) (omega arith) b7 in
    sym (sym (times_x_power-mod r) ∙ b8)

-- `z ^ v ^ …`
abbrev mix : ℕ → List ℕ → ℕ
mix z [] = z
mix z (v ∷ vs) = mix (bit_xor z v) vs

mix-power :
    (z : ℕ) (vs : List ℕ)
    → times_x_power 8 (mix z vs) ≡ mix (times_x_power 8 z) (map (times_x_power 8) vs)
mix-power z [] = refl
mix-power z (v ∷ vs) =
    mix-power (bit_xor z v) vs
    ∙ ap (λ u. mix u (map (times_x_power 8) vs)) (times_x_power-xor 8 z v)

mix-snoc : (z : ℕ) (vs : List ℕ) (c : ℕ) → bit_xor (mix z vs) c ≡ mix z (vs ++ c ∷ [])
mix-snoc z [] c = refl
mix-snoc z (v ∷ vs) c = mix-snoc (bit_xor z v) vs c

remainder_step :
    (z : ℕ) (vs : List ℕ) (c : ℕ) (s : Bytes)
    → remainder (mix z vs) (c ∷ s)
      ≡ remainder (mix (times_x_power 8 z) (map (times_x_power 8) vs ++ c ∷ [])) s
unfolding remainder
remainder_step z vs c s =
    ap (λ u. remainder (bit_xor u c) s) (mix-power z vs)
    ∙ ap (λ u. remainder u s) (mix-snoc (times_x_power 8 z) (map (times_x_power 8) vs) c)

-- A byte moves up by eight places at each step.
abbrev raised : ℕ → ℕ → ℕ
raised zero c = c
raised (suc n) c = times_x_power 8 (raised n c)

raise : (n c v next : ℕ) → raised n c ≡ v → v < 2 ^ 56 → v * 256 ≡ next → raised (suc n) c ≡ next
raise n c v next e h f = ap (times_x_power 8) e ∙ times_x_power_byte v h ∙ f

module _ (c : ℕ) (h : c < 256) where
  raised_1 : raised 1 c ≡ c * 2 ^ 8
  raised_1 = raise 0 c c _ refl (omega arith) (omega arith)

  raised_2 : raised 2 c ≡ c * 2 ^ 16
  raised_2 = raise 1 c (c * 2 ^ 8) _ raised_1 (omega arith) (omega arith)

  raised_3 : raised 3 c ≡ c * 2 ^ 24
  raised_3 = raise 2 c (c * 2 ^ 16) _ raised_2 (omega arith) (omega arith)

  raised_4 : raised 4 c ≡ c * 2 ^ 32
  raised_4 = raise 3 c (c * 2 ^ 24) _ raised_3 (omega arith) (omega arith)

  raised_5 : raised 5 c ≡ c * 2 ^ 40
  raised_5 = raise 4 c (c * 2 ^ 32) _ raised_4 (omega arith) (omega arith)

  raised_6 : raised 6 c ≡ c * 2 ^ 48
  raised_6 = raise 5 c (c * 2 ^ 40) _ raised_5 (omega arith) (omega arith)

  raised_7 : raised 7 c ≡ c * 2 ^ 56
  raised_7 = raise 6 c (c * 2 ^ 48) _ raised_6 (omega arith) (omega arith)

eight_steps :
    (r c0 c1 c2 c3 c4 c5 c6 c7 : ℕ) (s : Bytes)
    → remainder r (c0 ∷ c1 ∷ c2 ∷ c3 ∷ c4 ∷ c5 ∷ c6 ∷ c7 ∷ s)
      ≡ remainder
          (mix (raised 8 r) (
            raised 7 c0
            ∷ raised 6 c1
            ∷ raised 5 c2
            ∷ raised 4 c3
            ∷ raised 3 c4
            ∷ raised 2 c5
            ∷ raised 1 c6
            ∷ c7
            ∷ []))
          s
eight_steps r c0 c1 c2 c3 c4 c5 c6 c7 s =
    remainder_step r [] c0 _
    ∙ remainder_step (raised 1 r) (c0 ∷ []) c1 _
    ∙ remainder_step (raised 2 r) (raised 1 c0 ∷ c1 ∷ []) c2 _
    ∙ remainder_step (raised 3 r) (raised 2 c0 ∷ raised 1 c1 ∷ c2 ∷ []) c3 _
    ∙ remainder_step (raised 4 r) (raised 3 c0 ∷ raised 2 c1 ∷ raised 1 c2 ∷ c3 ∷ []) c4 _
    ∙ remainder_step (raised 5 r) (raised 4 c0 ∷ raised 3 c1 ∷ raised 2 c2 ∷ raised 1 c3 ∷ c4 ∷ [])
        c5 _
    ∙ remainder_step (raised 6 r)
        (raised 5 c0 ∷ raised 4 c1 ∷ raised 3 c2 ∷ raised 2 c3 ∷ raised 1 c4 ∷ c5 ∷ []) c6 _
    ∙ remainder_step (raised 7 r)
        (raised 6 c0
          ∷ raised 5 c1
          ∷ raised 4 c2
          ∷ raised 3 c3
          ∷ raised 2 c4
          ∷ raised 1 c5
          ∷ c6
          ∷ [])
        c7 s

raised_more :
    (n k next r : ℕ)
    → raised n r ≡ times_x_power k r
    → k + 8 ≡ next
    → raised (suc n) r ≡ times_x_power next r
raised_more n k next r e f =
    ap (times_x_power 8) e ∙ times_x_power-add 8 k r ∙ ap (λ u. times_x_power u r) f

raised_8 : (r : ℕ) → raised 8 r ≡ times_x_power 64 r
raised_8 r =
    let e2 = raised_more 1 8 16 r refl refl in
    let e3 = raised_more 2 16 24 r e2 refl in
    let e4 = raised_more 3 24 32 r e3 refl in
    let e5 = raised_more 4 32 40 r e4 refl in
    let e6 = raised_more 5 40 48 r e5 refl in
    let e7 = raised_more 6 48 56 r e6 refl in raised_more 7 56 64 r e7 refl

-- The body of the loop takes eight steps at once.
pub fold_block-remainder :
    (r c0 c1 c2 c3 c4 c5 c6 c7 : ℕ) (s : Bytes)
    → All (λ c. c < 256) (c0 ∷ c1 ∷ c2 ∷ c3 ∷ c4 ∷ c5 ∷ c6 ∷ c7 ∷ s)
    → remainder (fold_block r (c0 ∷ c1 ∷ c2 ∷ c3 ∷ c4 ∷ c5 ∷ c6 ∷ c7 ∷ s)) s
      ≡ remainder r (c0 ∷ c1 ∷ c2 ∷ c3 ∷ c4 ∷ c5 ∷ c6 ∷ c7 ∷ s)
unfolding fold_block
fold_block-remainder r c0 c1 c2 c3 c4 c5 c6 c7 s
      (h0, (h1, (h2, (h3, (h4, (h5, (h6, (h7, hs)))))))) =
    sym (
      eight_steps r c0 c1 c2 c3 c4 c5 c6 c7 s
      ∙ ap (λ u. remainder u s)
          (rw (raised_7 c0 h0, raised_6 c1 h1, raised_5 c2 h2, raised_4 c3 h3, raised_3 c4 h4)
            (rw (raised_2 c5 h5, raised_1 c6 h6, raised_8 r, sym (rh_lookup-power r)) refl)))
