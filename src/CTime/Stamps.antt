-- ===== src/CTime/Stamps.antt =====
-- A moment written as a generalized time, and `strptime` on it.
use simvacation.Common.{
  ℕ, suc, ◌+◌, ◌-◌, ◌*◌, ◌/◌, ◌%◌, ◌≤◌, ◌<◌, ◌≡◌, refl, ap, ◌∙◌, true, false, ◌&&◌, some, List, [],
  ◌∷◌, ◌==◌, leb, Bytes, arith,
}
use simvacation.CTime.{
  Tm, Spec, year_spec, month_spec, day_spec, hour_spec, minute_spec, second_spec, is_digit,
  skip_blanks, more_digits, in_range, first_digit, get_number, read_spec, set_spec, strptime,
}

-- Two digits, and four.
abbrev two_digits : ℕ → Bytes → Bytes
two_digits n rest = (48 + n / 10) ∷ (48 + n % 10) ∷ rest

abbrev four_digits : ℕ → Bytes → Bytes
four_digits n rest =
    (48 + n / 1000) ∷ (48 + n / 100 % 10) ∷ (48 + n / 10 % 10) ∷ (48 + n % 10) ∷ rest

-- `YYYYMMDDHHMMSS`, and what stands behind it.
pub stamp : Tm → Bytes → Bytes
stamp t rest = four_digits t.year (
    two_digits t.month
      (two_digits t.day (two_digits t.hour (two_digits t.minute (two_digits t.second rest)))))

digit_step :
    (n upper v d : ℕ) (s : Bytes)
    → d < 10
    → v * 10 ≤ upper
    → more_digits (suc n) upper v ((48 + d) ∷ s) ≡ more_digits n upper (v * 10 + d) s
unfolding more_digits is_digit
digit_step n upper v d s h k =
    let e : v * 10 + (48 + d - 48) ≡ v * 10 + d = omega arith in
    let test : (leb (v * 10) upper && (leb 48 (48 + d) && leb (48 + d) 57)) ≡ true = ground arith in
    rw (test, e)

first_step :
    (lower upper n d v : ℕ) (s rest : Bytes)
    → d < 10
    → more_digits n upper d s ≡ (v, rest)
    → lower ≤ v
    → v ≤ upper
    → get_number lower upper n ((48 + d) ∷ s) ≡ some (v, rest)
unfolding get_number first_digit in_range skip_blanks is_digit
first_step lower upper n d v s rest h e lo hi =
    let blank : ((48 + d) == 32) ≡ false = ground arith in
    let test : (leb 48 (48 + d) && leb (48 + d) 57) ≡ true = ground arith in
    let value : 48 + d - 48 ≡ d = omega arith in
    let fits : (leb lower v && leb v upper) ≡ true = ground arith in
    rw (blank, test, value, e, fits)

get_number-two_digits :
    (lower upper v : ℕ) (rest : Bytes)
    → v < 100
    → lower ≤ v
    → v ≤ upper
    → get_number lower upper 1 (two_digits v rest) ≡ some (v, rest)
get_number-two_digits lower upper v rest h lo hi =
    first_step lower upper 1 (v / 10) v ((48 + v % 10) ∷ rest) rest (omega arith)
      (digit_step 0 upper (v / 10) (v % 10) rest (omega arith) (omega arith)
        ∙ (unfold more_digits in
            ap (λ u. (u, rest)) {x = v / 10 * 10 + v % 10} {y = v} (omega arith)))
      lo hi

get_number-four_digits :
    (v : ℕ) (rest : Bytes) → v < 10000 → get_number 0 9999 3 (four_digits v rest) ≡ some (v, rest)
get_number-four_digits v rest h =
    let a = v / 1000 in
    let b = v / 100 % 10 in
    let c = v / 10 % 10 in
    let d = v % 10 in
    first_step 0 9999 3 a v _ rest (omega arith)
      (digit_step 2 9999 a b _ (omega arith) (omega arith)
        ∙ digit_step 1 9999 (a * 10 + b) c _ (omega arith) (omega arith)
        ∙ digit_step 0 9999 ((a * 10 + b) * 10 + c) d rest (omega arith) (omega arith)
        ∙ (unfold more_digits in
            ap (λ u. (u, rest)) {x = ((a * 10 + b) * 10 + c) * 10 + d} {y = v} (omega arith)))
      (omega arith) (omega arith)

-- A moment that a stamp can hold: a year of four digits, and a leap second at most.
pub record FitsStamp (t : Tm) : Type 0 where
  pub year_fits : t.year < 10000
  pub month_fits : (1 ≤ t.month) × (t.month ≤ 12)
  pub day_fits : (1 ≤ t.day) × (t.day ≤ 31)
  pub hour_fits : t.hour < 24
  pub minute_fits : t.minute < 60
  pub second_fits : t.second < 62

strptime_step :
    (f : Spec) (fs : List Spec) (s rest : Bytes) (v : ℕ) (t : Tm)
    → read_spec f s ≡ some (v, rest)
    → strptime (f ∷ fs) s t ≡ strptime fs rest (set_spec f v t)
unfolding strptime
strptime_step f fs s rest v t e = rw (e, strptime)

strptime_end : (s : Bytes) (t : Tm) → strptime [] s t ≡ (true, t)
unfolding strptime
strptime_end s t = refl

abbrev pub to_seconds : List Spec
to_seconds = year_spec ∷ month_spec ∷ day_spec ∷ hour_spec ∷ minute_spec ∷ second_spec ∷ []

-- What is read of a stamp is the moment, whatever the structure held and whatever follows.
pub strptime-stamp :
    (t t' : Tm) (rest : Bytes) → FitsStamp t → strptime to_seconds (stamp t rest) t' ≡ (true, t)
unfolding stamp read_spec set_spec
strptime-stamp t t' rest v =
    strptime_step year_spec _ _ _ t.year t' (get_number-four_digits t.year _ v.year_fits)
    ∙ strptime_step month_spec _ _ _ t.month _
        (get_number-two_digits 1 12 t.month _ (omega arith) (omega arith) (omega arith))
    ∙ strptime_step day_spec _ _ _ t.day _
        (get_number-two_digits 1 31 t.day _ (omega arith) (omega arith) (omega arith))
    ∙ strptime_step hour_spec _ _ _ t.hour _
        (get_number-two_digits 0 23 t.hour _ (omega arith) (omega arith) (omega arith))
    ∙ strptime_step minute_spec _ _ _ t.minute _
        (get_number-two_digits 0 59 t.minute _ (omega arith) (omega arith) (omega arith))
    ∙ strptime_step second_spec _ _ _ t.second _
        (get_number-two_digits 0 61 t.second _ (omega arith) (omega arith) (omega arith))
    ∙ strptime_end rest t
