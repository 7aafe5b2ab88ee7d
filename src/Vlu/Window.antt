-- ===== src/Vlu/Window.antt =====
-- vlu_ldap.c, ldap_vlu_time and ldap_vlu_onvacation: whether the moment is within the vacation.
pub mod Times
use simvacation.Common.{
  ℕ, Bool, true, false, not, ◌&&◌, Option, none, some, List, [], ◌∷◌, ◌==◌, ltb, if◌then◌else◌,
  Bytes, codes, length, ℤ, pos, negsuc,
}
use simvacation.CString.{strncasecmp}
use simvacation.CTime.{
  Tm, zero_tm, Spec, year_spec, month_spec, day_spec, hour_spec, minute_spec, second_spec, strptime,
  mktime,
}

-- `tz` and the time zone are put back: what is left is the time in UTC, 0 where nothing can be read.
zero_or : Bool × Tm → ℤ → ℤ
zero_or (true, tm) otherwise = mktime tm
zero_or (false, tm) otherwise = otherwise

abbrev to_minutes : List Spec
to_minutes = year_spec ∷ month_spec ∷ day_spec ∷ hour_spec ∷ minute_spec ∷ []

abbrev to_hours : List Spec
to_hours = year_spec ∷ month_spec ∷ day_spec ∷ hour_spec ∷ []

-- The three calls of `strptime` go over one structure.
unfoldable pub ldap_vlu_time : Bytes → ℤ
unfolding zero_or
ldap_vlu_time bv =
    let first =
      strptime (year_spec ∷ month_spec ∷ day_spec ∷ hour_spec ∷ minute_spec ∷ second_spec ∷ []) bv
        zero_tm in
    let second = strptime to_minutes bv first.1 in
    let third = strptime to_hours bv second.1 in
    zero_or first (zero_or second (zero_or third (pos 0)))

-- `time > 0 && now > time`
pub passed : ℤ → ℕ → Bool
passed (pos t) now = ltb 0 t && ltb t now
passed (negsuc t) now = false

-- The first value of an attribute, and the test of its time.
value_passed : Option (Bytes × List Bytes) → ℕ → Bool
unfolding passed ldap_vlu_time
value_passed none now = false
value_passed (some (bv, rest)) now = passed (ldap_vlu_time bv) now

unfoldable pub value_true : Option (Bytes × List Bytes) → Bool
value_true none = false
value_true (some (bv, rest)) = length bv == 4 && strncasecmp bv (codes "TRUE") 4

-- `clock` is `none` where `clock_gettime` fails.
unfoldable pub onvacation_at :
    Option ℕ → Bool → Option (Bytes × List Bytes) → Option (Bytes × List Bytes) → Bool
unfolding value_passed
onvacation_at none status start end = false
onvacation_at (some now) status start end =
    let begun = if not status then value_passed start now else true in
    if begun then not (value_passed end now) else false
