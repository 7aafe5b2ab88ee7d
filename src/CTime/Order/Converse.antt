-- ===== src/CTime/Order/Converse.antt =====
-- The moment with fewer seconds is the earlier one.
use simvacation.Common.{ℕ, ◌<◌, ◌≡◌, inl, inr, arith, ltb, ◌==◌, Bool-cases, ==_iff, sym}
use simvacation.CTime.{Tm, seconds_of}
use simvacation.CTime.Order.{
  IsMoment, Earlier, by_year, by_month, by_day, by_hour, by_minute, by_second, day_of_same,
  seconds_of-day, seconds_of-Earlier,
}

by_tri : (m n : ℕ) {P : Type 0} → (m < n → P) → (m ≡ n → P) → (n < m → P) → P
by_tri m n lt eq gt = elim (Bool-cases (ltb m n)) [
  | inl t ↦ lt (ground arith)
  | inr f ↦ elim (Bool-cases (m == n)) [ inl e ↦ eq ((==_iff m n).0 e) | inr g ↦ gt (ground arith) ]
]

seconds_of_same :
    (a b : Tm)
    → a.year ≡ b.year
    → a.month ≡ b.month
    → a.day ≡ b.day
    → a.hour ≡ b.hour
    → a.minute ≡ b.minute
    → a.second ≡ b.second
    → seconds_of a ≡ seconds_of b
seconds_of_same a b e f g h i j =
    omega (arith, seconds_of-day a, seconds_of-day b, day_of_same a b e f)

-- The moment with fewer seconds is the earlier one.
pub Earlier-seconds_of :
    (a b : Tm) → IsMoment a → IsMoment b → seconds_of a < seconds_of b → Earlier a b
Earlier-seconds_of a b v w h =
    let later : Earlier b a → Earlier a b =
      λ k. absurd (omega (arith, h, seconds_of-Earlier b a w v k)) in
    by_tri a.year b.year by_year
      (λ y.
        by_tri a.month b.month (by_month y)
          (λ m.
            by_tri a.day b.day (by_day y m)
              (λ d.
                by_tri a.hour b.hour (by_hour y m d)
                  (λ o.
                    by_tri a.minute b.minute (by_minute y m d o)
                      (λ i.
                        by_tri a.second b.second (by_second y m d o i)
                          (λ s. absurd (omega (arith, h, seconds_of_same a b y m d o i s)))
                          (λ k. later (by_second (sym y) (sym m) (sym d) (sym o) (sym i) k)))
                      (λ k. later (by_minute (sym y) (sym m) (sym d) (sym o) k)))
                  (λ k. later (by_hour (sym y) (sym m) (sym d) k)))
              (λ k. later (by_day (sym y) (sym m) k)))
          (λ k. later (by_month (sym y) k)))
      (λ k. later (by_year k))
