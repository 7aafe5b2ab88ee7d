-- ===== src/CTime/Order.antt =====
-- The order of the calendar is that of the seconds.
pub mod Converse
use simvacation.Common.{
  ℕ, zero, suc, ◌+◌, ◌-◌, ◌*◌, ◌≤◌, ◌<◌, ◌≡◌, ◌⊎◌, inl, inr, Bool, ◌||◌, arith, ltb, ◌==◌,
  Bool-cases, ==_iff, if◌then◌else◌, ap, sym,
}
use simvacation.CTime.{Tm, is_leap, days_before_year, days_before_month, seconds_of}

-- The lengths of the months and of the years.
abbrev pub days_in_month : Bool → ℕ → ℕ
days_in_month leap m =
    if m == 2
    then (if leap then 29 else 28)
    else if m == 4 || m == 6 || m == 9 || m == 11
    then 30
    else 31

abbrev days_in_year : Bool → ℕ
days_in_year leap = if leap then 366 else 365

-- A moment of the Gregorian calendar, with no leap second.
pub record IsMoment (t : Tm) : Type 0 where
  pub month_in : (1 ≤ t.month) × (t.month ≤ 12)
  pub day_in : (1 ≤ t.day) × (t.day ≤ days_in_month (is_leap t.year) t.month)
  pub hour_in : t.hour < 24
  pub minute_in : t.minute < 60
  pub second_in : t.second < 60

-- By year, then month, day, hour, minute and second.
pub data Earlier (a b : Tm) : Type 0 where
  by_year : a.year < b.year → Earlier a b
  by_month : a.year ≡ b.year → a.month < b.month → Earlier a b
  by_day : a.year ≡ b.year → a.month ≡ b.month → a.day < b.day → Earlier a b
  by_hour : a.year ≡ b.year → a.month ≡ b.month → a.day ≡ b.day → a.hour < b.hour → Earlier a b
  by_minute :
      a.year ≡ b.year
      → a.month ≡ b.month
      → a.day ≡ b.day
      → a.hour ≡ b.hour
      → a.minute < b.minute
      → Earlier a b
  by_second :
      a.year ≡ b.year
      → a.month ≡ b.month
      → a.day ≡ b.day
      → a.hour ≡ b.hour
      → a.minute ≡ b.minute
      → a.second < b.second
      → Earlier a b

month_step :
    (leap : Bool) (m : ℕ)
    → 1 ≤ m
    → m < 12
    → days_before_month leap (suc m) ≡ days_before_month leap m + days_in_month leap m
unfolding days_before_month
month_step leap m h k = ground arith

year_end : (leap : Bool) → days_before_month leap 12 + 31 ≡ days_in_year leap
unfolding days_before_month
year_end leap = ground arith

month_before :
    (leap : Bool) (k m : ℕ)
    → 1 ≤ m
    → m + suc k ≤ 12
    → days_before_month leap m + days_in_month leap m ≤ days_before_month leap (m + suc k)
month_before leap zero m h e = omega (
  arith,
  month_step leap m h (omega arith),
  ap (days_before_month leap) {x = m + 1} {y = suc m} (omega arith),
)
month_before leap (suc k) m h e = omega (
  arith,
  month_before leap k m h (omega arith),
  month_step leap (m + suc k) (omega arith) (omega arith),
  ap (days_before_month leap) {x = m + suc (suc k)} {y = suc (m + suc k)} (omega arith),
)

year_step : (y : ℕ) → days_before_year (suc y) ≡ days_before_year y + days_in_year (is_leap y)
unfolding days_before_year is_leap
year_step y = ground arith

year_before :
    (k y : ℕ) → days_before_year y + days_in_year (is_leap y) ≤ days_before_year (y + suc k)
year_before zero y =
    omega (arith, year_step y, ap days_before_year {x = y + 1} {y = suc y} (omega arith))
year_before (suc k) y = omega (
  arith,
  year_before k y,
  year_step (y + suc k),
  ap days_before_year {x = y + suc (suc k)} {y = suc (y + suc k)} (omega arith),
)

last_or_before : (m : ℕ) → m ≤ 12 → (m ≡ 12) ⊎ ((k : ℕ) × (m + suc k ≡ 12))
last_or_before m h = elim (Bool-cases (m == 12)) [
  | inl t ↦ inl ((==_iff m 12).0 t)
  | inr f ↦ inr (11 - m, ground arith)
]

december : (leap : Bool) (m : ℕ) → m ≡ 12 → days_in_month leap m ≡ 31
december leap m e = ground arith

-- A moment lies within its year.
day_bound :
    (t : Tm)
    → IsMoment t
    → days_before_month (is_leap t.year) t.month + t.day ≤ days_in_year (is_leap t.year)
day_bound t v = elim (last_or_before t.month v.month_in.1) [
  | inl e ↦ omega (
    arith,
    year_end (is_leap t.year),
    v.day_in,
    ap (days_before_month (is_leap t.year)) e,
    december (is_leap t.year) t.month e,
  )
  | inr (k, e) ↦ omega (
    arith,
    year_end (is_leap t.year),
    v.day_in,
    month_before (is_leap t.year) k t.month v.month_in.0 (omega arith),
    ap (days_before_month (is_leap t.year)) e,
  )
]

-- The days before a moment's day, and the day.
day_of : Tm → ℕ
day_of t = days_before_year t.year + days_before_month (is_leap t.year) t.month + t.day

day_of_year_lt : (a b : Tm) → IsMoment a → IsMoment b → a.year < b.year → day_of a < day_of b
unfolding day_of
day_of_year_lt a b v w h =
    let k = b.year - a.year - 1 in
    let e : a.year + suc k ≡ b.year = omega arith in
    omega (arith, day_bound a v, year_before k a.year, ap days_before_year e, w.day_in)

day_of_month_lt :
    (a b : Tm) → IsMoment a → IsMoment b → a.year ≡ b.year → a.month < b.month → day_of a < day_of b
unfolding day_of
day_of_month_lt a b v w e h =
    let k = b.month - a.month - 1 in
    let f : a.month + suc k ≡ b.month = omega arith in
    omega (
      arith,
      month_before (is_leap a.year) k a.month v.month_in.0 (omega (arith, w.month_in)),
      ap (days_before_month (is_leap a.year)) f,
      ap (λ y. days_before_month (is_leap y) b.month) e,
      ap days_before_year e,
      v.day_in,
      w.day_in,
    )

day_of_same : (a b : Tm) → a.year ≡ b.year → a.month ≡ b.month → day_of a + b.day ≡ day_of b + a.day
unfolding day_of
day_of_same a b e f = omega (
  arith,
  ap days_before_year e,
  ap (λ y. days_before_month (is_leap y) a.month) e,
  ap (days_before_month (is_leap b.year)) f,
)

seconds_of-day :
    (t : Tm) → seconds_of t ≡ day_of t * 86400 + t.hour * 3600 + t.minute * 60 + t.second
unfolding seconds_of day_of
seconds_of-day t = omega arith

-- The earlier of two moments of the calendar has fewer seconds.
pub seconds_of-Earlier :
    (a b : Tm) → IsMoment a → IsMoment b → Earlier a b → seconds_of a < seconds_of b
seconds_of-Earlier a b v w (by_year h) = omega (
  arith,
  seconds_of-day a,
  seconds_of-day b,
  v.hour_in,
  v.minute_in,
  v.second_in,
  day_of_year_lt a b v w h,
)
seconds_of-Earlier a b v w (by_month e h) = omega (
  arith,
  seconds_of-day a,
  seconds_of-day b,
  v.hour_in,
  v.minute_in,
  v.second_in,
  day_of_month_lt a b v w e h,
)
seconds_of-Earlier a b v w (by_day e f h) = omega (
  arith,
  seconds_of-day a,
  seconds_of-day b,
  v.hour_in,
  v.minute_in,
  v.second_in,
  day_of_same a b e f,
)
seconds_of-Earlier a b v w (by_hour e f g h) =
    omega (arith, seconds_of-day a, seconds_of-day b, v.minute_in, v.second_in, day_of_same a b e f)
seconds_of-Earlier a b v w (by_minute e f g i h) =
    omega (arith, seconds_of-day a, seconds_of-day b, v.second_in, day_of_same a b e f)
seconds_of-Earlier a b v w (by_second e f g i j h) =
    omega (arith, seconds_of-day a, seconds_of-day b, day_of_same a b e f)
