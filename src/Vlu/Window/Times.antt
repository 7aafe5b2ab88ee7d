-- ===== src/Vlu/Window/Times.antt =====
-- `ldap_vlu_time` on a generalized time, and the vacation between two of them.
use simvacation.Common.{
  ℕ, ◌+◌, ◌-◌, ◌≤◌, ◌<◌, ◌≡◌, ◌⊎◌, ◌↔◌, inl, inr, refl, ap, sym, ◌∙◌, Bool, true, false, not, some,
  List, Bytes, ltb, if◌then◌else◌, arith, pos,
}
use simvacation.CTime.{Tm, zero_tm, is_leap, seconds_of, epoch, mktime}
use simvacation.CTime.Order.{IsMoment, Earlier, days_in_month, seconds_of-Earlier}
use simvacation.CTime.Order.Converse.{Earlier-seconds_of}
use simvacation.CTime.Stamps.{stamp, FitsStamp, strptime-stamp}
use simvacation.Vlu.Window.{zero_or, ldap_vlu_time, passed, value_passed, onvacation_at}

-- A moment behind the first second of 1970, in a year of four digits.
pub record IsTime (t : Tm) : Type 0 where
  pub moment : IsMoment t
  pub four_digits : t.year < 10000
  pub after_epoch : epoch < seconds_of t

days_in_month_le : (leap : Bool) (m : ℕ) → days_in_month leap m ≤ 31
days_in_month_le leap m = ground arith

IsTime-FitsStamp : (t : Tm) → IsTime t → FitsStamp t
IsTime-FitsStamp t v =
    let m = v.moment in
    record {
      year_fits = v.four_digits;
      month_fits = m.month_in;
      day_fits = (m.day_in.0, omega (arith, m.day_in.1, days_in_month_le (is_leap t.year) t.month));
      hour_fits = m.hour_in;
      minute_fits = m.minute_in;
      second_fits = omega (arith, m.second_in);
    }

-- Whatever follows a generalized time, the zone included, is not read.
ldap_vlu_time-stamp :
    (t : Tm) (zone : Bytes) → FitsStamp t → ldap_vlu_time (stamp t zone) ≡ mktime t
unfolding ldap_vlu_time zero_or
ldap_vlu_time-stamp t zone v = rw (strptime-stamp t zero_tm zone v)

mktime_after_epoch : (t : Tm) → epoch < seconds_of t → mktime t ≡ pos (seconds_of t - epoch)
unfolding mktime
mktime_after_epoch t h = ground arith

passed-pos : (t now : ℕ) → epoch < t → passed (pos (t - epoch)) now ≡ ltb t (epoch + now)
unfolding passed
passed-pos t now h = ground arith

passed-stamp :
    (t : Tm) (zone : Bytes) (others : List Bytes) (now : ℕ)
    → IsTime t
    → value_passed (some (stamp t zone, others)) now ≡ ltb (seconds_of t) (epoch + now)
unfolding value_passed
passed-stamp t zone others now v =
    ap (λ z. passed z now)
      (ldap_vlu_time-stamp t zone (IsTime-FitsStamp t v) ∙ mktime_after_epoch t v.after_epoch)
    ∙ passed-pos (seconds_of t) now v.after_epoch

-- The test of a time tells whether it is earlier than the moment.
passed-Earlier :
    (a t : Tm) (zone : Bytes) (others : List Bytes) (now : ℕ)
    → IsTime a
    → IsMoment t
    → seconds_of t ≡ epoch + now
    → (value_passed (some (stamp a zone, others)) now ≡ true) ↔ Earlier a t
passed-Earlier a t zone others now v w e =
    let p = passed-stamp a zone others now v in
    (
      λ h.
          let q : ltb (seconds_of a) (epoch + now) ≡ true = sym p ∙ h in
          Earlier-seconds_of a t v.moment w (ground arith),
      λ h.
          let k = seconds_of-Earlier a t v.moment w h in
          let q : ltb (seconds_of a) (epoch + now) ≡ true = ground arith in p ∙ q,
    )

both_tests :
    {P Q : Type 0} (status begun over : Bool)
    → (begun ≡ true) ↔ P
    → (over ≡ true) ↔ Q
    → ((let started = if not status then begun else true in if started then not over else false)
        ≡ true)
      ↔ (((status ≡ true) ⊎ P) × ¬ Q)
both_tests true begun true b o = (λ h. cc, λ h. absurd (h.1 (o.0 refl)))
both_tests true begun false b o = (λ h. (inl refl, λ q. let k = o.1 q in cc), λ h. refl)
both_tests false true true b o = (λ h. cc, λ h. absurd (h.1 (o.0 refl)))
both_tests false true false b o = (λ h. (inr (b.0 refl), λ q. let k = o.1 q in cc), λ h. refl)
both_tests false false over b o =
    (λ h. cc, λ h. elim h.0 [ inl k ↦ cc | inr p ↦ let k = b.1 p in cc ])

-- With a start and an end given as generalized times, the recipient is on vacation at a moment exactly
-- if the status says so or the start is earlier than the moment, and the end is not.
pub onvacation_at-window :
    (a b t : Tm) (status : Bool) (zone zone' : Bytes) (others others' : List Bytes) (now : ℕ)
    → IsTime a
    → IsTime b
    → IsMoment t
    → seconds_of t ≡ epoch + now
    → (onvacation_at (some now) status (some (stamp a zone, others)) (some (stamp b zone', others'))
        ≡ true)
      ↔ (((status ≡ true) ⊎ Earlier a t) × ¬ Earlier b t)
unfolding onvacation_at
onvacation_at-window a b t status zone zone' others others' now v w m e =
    both_tests status (value_passed (some (stamp a zone, others)) now)
      (value_passed (some (stamp b zone', others')) now) (passed-Earlier a t zone others now v m e)
      (passed-Earlier b t zone' others' now w m e)
