-- ===== src/CTime.antt =====
-- The functions of the C library that vlu_ldap.c calls on times: `strptime`, as the GNU library
-- reads the six formats that are used, and `mktime` where TZ is empty, which is UTC.
pub mod Stamps
pub mod Order
use simvacation.Common.{
  ℕ, zero, suc, ◌+◌, ◌-◌, ◌*◌, ◌/◌, ◌%◌, Bool, true, false, not, ◌&&◌, ◌||◌, Option, none, some,
  List, [], ◌∷◌, ◌==◌, ltb, leb, if◌then◌else◌, Bytes, ℤ, sub_ℕ,
}

-- `struct tm`: the year is `tm_year + 1900` and the month `tm_mon + 1`.
pub record Tm : Type 0 where
  pub year : ℕ
  pub month : ℕ
  pub day : ℕ
  pub hour : ℕ
  pub minute : ℕ
  pub second : ℕ

-- After `memset` with 0.
abbrev pub zero_tm : Tm
zero_tm = record { year = 1900; month = 1; day = 0; hour = 0; minute = 0; second = 0 }

pub is_digit : ℕ → Bool
is_digit c = leb b'0' c && leb c b'9'

pub skip_blanks : Bytes → Bytes
skip_blanks [] = []
skip_blanks (c ∷ s) = let rest = skip_blanks s in if c == b' ' then rest else c ∷ s

-- More digits, at most `n`, while ten times the number is not above the upper bound.
unfoldable pub more_digits : ℕ → ℕ → ℕ → Bytes → ℕ × Bytes
unfolding is_digit
more_digits zero upper v s = (v, s)
more_digits (suc n) upper v [] = (v, [])
more_digits (suc n) upper v (c ∷ s) =
    let rest = more_digits n upper (v * 10 + (c - b'0')) s in
    if leb (v * 10) upper && is_digit c then rest else (v, c ∷ s)

in_range : ℕ → ℕ → ℕ × Bytes → Option (ℕ × Bytes)
in_range lower upper (v, s) = if leb lower v && leb v upper then some (v, s) else none

first_digit : ℕ → ℕ → ℕ → Bytes → Option (ℕ × Bytes)
unfolding in_range is_digit
first_digit lower upper n [] = none
first_digit lower upper n (c ∷ s) =
    if is_digit c then in_range lower upper (more_digits n upper (c - b'0') s) else none

-- `get_number(lower, upper, n + 1)`
pub get_number : ℕ → ℕ → ℕ → Bytes → Option (ℕ × Bytes)
unfolding first_digit skip_blanks
get_number lower upper n s = first_digit lower upper n (skip_blanks s)

-- `%Y`, `%m`, `%d`, `%H`, `%M` and `%S`
pub data Spec : Type 0 where
  year_spec month_spec day_spec hour_spec minute_spec second_spec : Spec

pub read_spec : Spec → Bytes → Option (ℕ × Bytes)
read_spec year_spec s = get_number 0 9999 3 s
read_spec month_spec s = get_number 1 12 1 s
read_spec day_spec s = get_number 1 31 1 s
read_spec hour_spec s = get_number 0 23 1 s
read_spec minute_spec s = get_number 0 59 1 s
read_spec second_spec s = get_number 0 61 1 s

pub set_spec : Spec → ℕ → Tm → Tm
set_spec year_spec v tm = record tm { year = v }
set_spec month_spec v tm = record tm { month = v }
set_spec day_spec v tm = record tm { day = v }
set_spec hour_spec v tm = record tm { hour = v }
set_spec minute_spec v tm = record tm { minute = v }
set_spec second_spec v tm = record tm { second = v }

-- What has been read stays in the structure, also where a later number cannot be read. The result
-- is whether all could; what stands behind them does not matter.
unfoldable pub strptime : List Spec → Bytes → Tm → Bool × Tm
unfolding read_spec set_spec get_number
strptime [] s tm = (true, tm)
strptime (f ∷ fs) s tm = elim (read_spec f s) [
  | none ↦ (false, tm)
  | some (v, rest) ↦ strptime fs rest (set_spec f v tm)
]

pub is_leap : ℕ → Bool
is_leap y = y % 4 == 0 && (not (y % 100 == 0) || y % 400 == 0)

-- The days of the years from 0 on, in the Gregorian calendar.
pub days_before_year : ℕ → ℕ
days_before_year y = y * 365 + (y + 3) / 4 + (y + 399) / 400 - (y + 99) / 100

-- The days of the months before the one of that number.
pub days_before_month : Bool → ℕ → ℕ
days_before_month leap m =
    let extra : ℕ = if leap then 1 else 0 in
    if leb m 1
    then 0
    else if m == 2
    then 31
    else if m == 3
    then 59 + extra
    else if m == 4
    then 90 + extra
    else if m == 5
    then 120 + extra
    else if m == 6
    then 151 + extra
    else if m == 7
    then 181 + extra
    else if m == 8
    then 212 + extra
    else if m == 9
    then 243 + extra
    else if m == 10
    then 273 + extra
    else if m == 11
    then 304 + extra
    else 334 + extra

-- From the day before the year 0, in seconds; a day behind the end of its month counts on.
unfoldable pub seconds_of : Tm → ℕ
unfolding days_before_year days_before_month is_leap
seconds_of tm =
    (days_before_year tm.year + days_before_month (is_leap tm.year) tm.month + tm.day) * 86400
    + tm.hour * 3600
    + tm.minute * 60
    + tm.second

-- The first day of 1970, from the day before the year 0, in seconds.
abbrev pub epoch : ℕ
epoch = 719529 * 86400

unfoldable pub mktime : Tm → ℤ
unfolding seconds_of
mktime tm = sub_ℕ (seconds_of tm) epoch
