-- ===== src/Rabin/Entries.antt =====
-- The entries of the tables: the products of x ^ 64 with the bytes at each place.
use simvacation.Common.{ℕ, ◌*◌, ◌^◌, ◌<◌, ◌≡◌, refl, get_or}
use simvacation.Rabin.Field.{times_x, times_x_power}
use simvacation.Rabin.Range.{agree, agree_sound}
use simvacation.Rabin.Table32.{table32}
use simvacation.Rabin.Table40.{table40}
use simvacation.Rabin.Table48.{table48}
use simvacation.Rabin.Table56.{table56}
use simvacation.Rabin.Table64.{table64}
use simvacation.Rabin.Table72.{table72}
use simvacation.Rabin.Table80.{table80}
use simvacation.Rabin.Table88.{table88}

pub table32-power : (b : ℕ) → b < 256 → times_x_power 64 (b * 2 ^ 0) ≡ get_or table32 b 0
unfolding times_x times_x_power table32 agree
table32-power b =
    agree_sound (λ b. times_x_power 64 (b * 2 ^ 0)) (λ b. get_or table32 b 0) 256 b refl

pub table40-power : (b : ℕ) → b < 256 → times_x_power 64 (b * 2 ^ 8) ≡ get_or table40 b 0
unfolding times_x times_x_power table40 agree
table40-power b =
    agree_sound (λ b. times_x_power 64 (b * 2 ^ 8)) (λ b. get_or table40 b 0) 256 b refl

pub table48-power : (b : ℕ) → b < 256 → times_x_power 64 (b * 2 ^ 16) ≡ get_or table48 b 0
unfolding times_x times_x_power table48 agree
table48-power b =
    agree_sound (λ b. times_x_power 64 (b * 2 ^ 16)) (λ b. get_or table48 b 0) 256 b refl

pub table56-power : (b : ℕ) → b < 256 → times_x_power 64 (b * 2 ^ 24) ≡ get_or table56 b 0
unfolding times_x times_x_power table56 agree
table56-power b =
    agree_sound (λ b. times_x_power 64 (b * 2 ^ 24)) (λ b. get_or table56 b 0) 256 b refl

pub table64-power : (b : ℕ) → b < 256 → times_x_power 64 (b * 2 ^ 32) ≡ get_or table64 b 0
unfolding times_x times_x_power table64 agree
table64-power b =
    agree_sound (λ b. times_x_power 64 (b * 2 ^ 32)) (λ b. get_or table64 b 0) 256 b refl

pub table72-power : (b : ℕ) → b < 256 → times_x_power 64 (b * 2 ^ 40) ≡ get_or table72 b 0
unfolding times_x times_x_power table72 agree
table72-power b =
    agree_sound (λ b. times_x_power 64 (b * 2 ^ 40)) (λ b. get_or table72 b 0) 256 b refl

pub table80-power : (b : ℕ) → b < 256 → times_x_power 64 (b * 2 ^ 48) ≡ get_or table80 b 0
unfolding times_x times_x_power table80 agree
table80-power b =
    agree_sound (λ b. times_x_power 64 (b * 2 ^ 48)) (λ b. get_or table80 b 0) 256 b refl

pub table88-power : (b : ℕ) → b < 256 → times_x_power 64 (b * 2 ^ 56) ≡ get_or table88 b 0
unfolding times_x times_x_power table88 agree
table88-power b =
    agree_sound (λ b. times_x_power 64 (b * 2 ^ 56)) (λ b. get_or table88 b 0) 256 b refl
