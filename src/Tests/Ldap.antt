-- ===== src/Tests/Ldap.antt =====
-- The lookup in LDAP at inputs: vlu_ldap.c on a directory, and runs of the program with it.
use simvacation.Common.{ℕ, ◌+◌, ◌≡◌, ◌⊎◌, ◌↔◌, refl, true, false, some, [], codes, arith}
use simvacation.CString.{strncasecmp, tolower}
use simvacation.Config.{Config}
use simvacation.CTime.{Tm, more_digits, seconds_of, epoch, strptime, mktime}
use simvacation.CTime.Order.{IsMoment, Earlier}
use simvacation.CTime.Stamps.{stamp}
use simvacation.Vdb.{ok, tempfail}
use simvacation.Vlu.Window.{onvacation_at, ldap_vlu_time, value_true}
use simvacation.Vlu.Window.Times.{IsTime, onvacation_at-window}
use simvacation.Vlu.Ldap.{
  ldap_vlu_onvacation, ldap_vlu_search, ldap_vlu_group_search, user_settings, group_settings,
}
use simvacation.Vlu.Ldap.Init.{ldap_vlu_init}
use simvacation.Vlu.Ldap.Search.{Answer, searches-Answer}
use simvacation.Tests.Model.{model}
use simvacation.Tests.Directory.{directory, ldap_settings, bound, team}

abbrev pub settings : Config
settings = record {
  core_vdb = some (codes "lmdb");
  core_vlu = some (codes "ldap");
  core_domain = some (codes "umich.edu");
  core_sendmail = some (codes "/usr/sbin/simsendmail $R");
  core_default_message = some (codes "away");
  core_subject_prefix = some (codes "Out");
  core_interval = 100;
}

bound_by_init : ldap_vlu_init directory true true settings ldap_settings ≡ some bound
unfolding ldap_vlu_init
bound_by_init = refl

abbrev start : Tm
start = record { year = 2026; month = 1; day = 1; hour = 0; minute = 0; second = 0 }

abbrev end : Tm
end = record { year = 2027; month = 1; day = 1; hour = 0; minute = 0; second = 0 }

abbrev summer : Tm
summer = record { year = 2026; month = 6; day = 15; hour = 12; minute = 0; second = 0 }

start-IsTime : IsTime start
unfolding seconds_of
start-IsTime = record {
  moment = record {
    month_in = (omega arith, omega arith);
    day_in = (omega arith, omega arith);
    hour_in = omega arith;
    minute_in = omega arith;
    second_in = omega arith;
  };
  four_digits = omega arith;
  after_epoch = omega arith;
}

end-IsTime : IsTime end
unfolding seconds_of
end-IsTime = record {
  moment = record {
    month_in = (omega arith, omega arith);
    day_in = (omega arith, omega arith);
    hour_in = omega arith;
    minute_in = omega arith;
    second_in = omega arith;
  };
  four_digits = omega arith;
  after_epoch = omega arith;
}

summer-IsMoment : IsMoment summer
summer-IsMoment = record {
  month_in = (omega arith, omega arith);
  day_in = (omega arith, omega arith);
  hour_in = omega arith;
  minute_in = omega arith;
  second_in = omega arith;
}

-- What `date -u -d 2026-06-15T12:00:00Z +%s` prints.
abbrev pub summer_time : ℕ
summer_time = 1781524800

summer-seconds : seconds_of summer ≡ epoch + summer_time
unfolding seconds_of
summer-seconds = refl

onvacation_at-window_example :
    (onvacation_at
        (some summer_time)
        false
        (some (stamp start (codes "Z"), []))
        (some (stamp end (codes "Z"), []))
      ≡ true)
    ↔ (((false ≡ true) ⊎ Earlier start summer) × ¬ Earlier end summer)
onvacation_at-window_example =
    onvacation_at-window start end summer false (codes "Z") (codes "Z") [] [] summer_time
      start-IsTime end-IsTime summer-IsMoment summer-seconds

-- The group is away in summer, and the user says so himself.
team_away :
    ldap_vlu_onvacation directory (some summer_time) (record bound { result = some team }) ≡ true
unfolding ldap_vlu_onvacation onvacation_at ldap_vlu_time strptime more_digits mktime value_true
team_away = refl

al_found : (ldap_vlu_search directory settings (some 1000) (codes "al") bound).0 ≡ ok
unfolding ldap_vlu_search ldap_vlu_onvacation onvacation_at ldap_vlu_time strptime more_digits
    mktime value_true strncasecmp tolower
al_found = refl

busy_again : (ldap_vlu_search directory settings (some 1000) (codes "busy") bound).0 ≡ tempfail
unfolding ldap_vlu_search ldap_vlu_onvacation onvacation_at ldap_vlu_time strptime more_digits
    mktime value_true strncasecmp tolower
busy_again = refl

team_found :
    (ldap_vlu_group_search directory model ldap_settings
      (some summer_time)
      (codes "the.team")
      bound).0
    ≡ ok
unfolding ldap_vlu_group_search ldap_vlu_onvacation onvacation_at ldap_vlu_time strptime more_digits
    mktime value_true strncasecmp tolower
team_found = refl

searches-Answer_example :
    Answer directory
      (some summer_time)
      (user_settings directory settings)
      bound
      (directory.ldap_search_ext_s tt (codes "ou=People") (codes "uid=the.team") bound.attrs)
      (ldap_vlu_search directory settings (some summer_time) (codes "the.team") bound)
    × Answer directory
        (some summer_time)
        (group_settings directory ldap_settings)
        bound
        (directory.ldap_search_ext_s tt (codes "ou=Groups") (codes "cn=the team") bound.attrs)
        (ldap_vlu_group_search directory model ldap_settings
          (some summer_time)
          (codes "the.team")
          bound)
searches-Answer_example =
    searches-Answer directory model settings ldap_settings (some summer_time) (codes "the.team")
      bound
