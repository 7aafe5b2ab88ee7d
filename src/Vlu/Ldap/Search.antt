-- ===== src/Vlu/Ldap/Search.antt =====
-- What the two searches answer, and what they leave in the structure.
use simvacation.Common.{
  ℕ, zero, suc, ◌≡◌, ◌≢◌, ◌⊎◌, inl, inr, refl, ap, ◌∙◌, Bool, true, false, Option, Bytes, codes,
  ◌++◌, ◌==◌, ◌||◌, map, [], ◌∷◌, ltb, if◌then◌else◌, arith, ℤ, pos, negsuc,
}
use simvacation.Yasl.{Yasl, mapped}
use simvacation.Config.{Config, LdapConfig}
use simvacation.Vdb.{VacResult, ok, tempfail, permfail}
use simvacation.Vlu.Directory.{
  Directory, LdapCode, success, server_down, timeout, busy, unavailable, other, local_error,
  any_other,
}
use simvacation.Vlu.Ldap.{
  VluLdap, ldap_vlu_onvacation, result_of, one_match, found_by, ldap_vlu_search_common,
  if_onvacation, user_settings, group_settings, ldap_vlu_search, ldap_vlu_group_search,
}

-- The codes for which the mail is to be tried again.
pub data Temporary : LdapCode → Type 0 where
  down : Temporary server_down
  late : Temporary timeout
  at_work : Temporary busy
  closed : Temporary unavailable
  unknown : Temporary other
  here : Temporary local_error

-- The filter of a group.
abbrev pub blank_for_separator : ℕ → ℕ
blank_for_separator c = if c == b'.' || c == b'_' then b' ' else c

abbrev pub group_filter : Bytes → Bytes
group_filter rcpt = codes "cn=" ++ map blank_for_separator rcpt

mapped-blank : (c : ℕ) → mapped (codes "._") (codes "  ") 2 c ≡ blank_for_separator c
mapped-blank c = ground arith

map-mapped : (s : Bytes) → map (mapped (codes "._") (codes "  ") 2) s ≡ map blank_for_separator s
map-mapped [] = refl
map-mapped (c ∷ s) =
    ap (◌∷◌ (mapped (codes "._") (codes "  ") 2 c)) (map-mapped s)
    ∙ ap (λ b. b ∷ map blank_for_separator s) (mapped-blank c)

group_filter_lem :
    (y : Yasl) (rcpt : Bytes)
    → y.yaslmapchars (y.yaslcatyasl (codes "cn=") rcpt) (codes "._") (codes "  ") 2
      ≡ group_filter rcpt
group_filter_lem y rcpt =
    rw
      (
        y.catyasl_append (codes "cn=") rcpt,
        y.mapchars_each (codes "cn=" ++ rcpt) (codes "._") (codes "  ") 2,
      )
      (ap (λ s. codes "cn=" ++ s) (map-mapped rcpt))

module _ (d : Directory) where
  -- One entry is found, or the count of the entries fails.
  abbrev pub Single : ℤ → Type 0
  Single n = (n ≢ pos 0) × ((k : ℕ) → n ≢ pos (suc (suc k)))

  -- The structure with the entry that is found.
  abbrev pub with_entry : d.Result → VluLdap d → VluLdap d
  with_entry result vlu = record vlu { result = d.ldap_first_entry vlu.ld result }

  module _ (clock : Option ℕ) (settings : VluLdap d → VluLdap d) (vlu : VluLdap d) where
    -- The server finds one entry for the filter, and it is on vacation.
    abbrev pub OnVacation : LdapCode × d.Result → Type 0
    OnVacation (rc, result) =
        (rc ≡ success)
        × Single (d.ldap_count_entries vlu.ld result)
        × (ldap_vlu_onvacation d clock (with_entry result vlu) ≡ true)

    -- The result of a search, and the structure behind it, for what the server answers.
    pub data Answer : LdapCode × d.Result → VacResult × VluLdap d → Type 0 where
      again : {a : LdapCode × d.Result} → Temporary a.0 → Answer a (tempfail, vlu)
      on_vacation :
          {a : LdapCode × d.Result} → OnVacation a → Answer a (ok, settings (with_entry a.1 vlu))
      refused :
          {a : LdapCode × d.Result} {v : VluLdap d}
          → ¬ OnVacation a
          → ¬ Temporary a.0
          → (v ≡ vlu) ⊎ (v ≡ with_entry a.1 vlu)
          → Answer a (permfail, v)

    pub Answer-ok :
        {a : LdapCode × d.Result} {p : VacResult × VluLdap d}
        → Answer a p
        → p.0 ≡ ok
        → OnVacation a × (p.1 ≡ settings (with_entry a.1 vlu))
    Answer-ok (again t) h = cc
    Answer-ok (on_vacation v) h = (v, refl)
    Answer-ok (refused n t v) h = cc

    -- A search that fails for good leaves the names of the attributes alone.
    pub Answer-permfail :
        {a : LdapCode × d.Result} {p : VacResult × VluLdap d}
        → Answer a p
        → p.0 ≡ permfail
        → p.1.attr_group_msg ≡ vlu.attr_group_msg
    Answer-permfail (again t) h = cc
    Answer-permfail (on_vacation v) h = cc
    Answer-permfail (refused n t (inl e)) h = ap (λ v. v.attr_group_msg) e
    Answer-permfail (refused n t (inr e)) h = ap (λ v. v.attr_group_msg) e

    not_success : ¬ Temporary success
    not_success h = elim h [ ]

    not_other : (code : ℕ) → ¬ Temporary (any_other code)
    not_other code h = elim h [ ]

    not_found :
        (result : d.Result)
        → ¬ Single (d.ldap_count_entries vlu.ld result)
        → Answer (success, result) (permfail, vlu)
    not_found result n = refused (λ (a, b, c). n b) not_success (inl refl)

    found :
        (result : d.Result) (b : Bool)
        → Single (d.ldap_count_entries vlu.ld result)
        → ldap_vlu_onvacation d clock (with_entry result vlu) ≡ b
        → Answer
            (success, result)
            (if b
              then (ok, settings (with_entry result vlu))
              else (permfail, with_entry result vlu))
    found result true s e = on_vacation (refl, s, e)
    found result false s e = refused (λ (a, b, c). cc) not_success (inr refl)

    one_match-Answer :
        (result : d.Result) (n : ℤ)
        → d.ldap_count_entries vlu.ld result ≡ n
        → Answer (success, result) (if_onvacation d clock settings (one_match d result n vlu))
    unfolding one_match if_onvacation
    one_match-Answer result (negsuc n) e = found result _ (rw e (λ h. cc, λ k h. cc)) refl
    one_match-Answer result (pos zero) e = not_found result (rw e (λ h. h.0 refl))
    one_match-Answer result (pos (suc zero)) e =
        found result _ (rw e (λ h. cc, λ k h. let f : 1 ≡ suc (suc k) = cc in absurd (omega arith)))
          refl
    one_match-Answer result (pos (suc (suc n))) e =
        let many : ltb 1 (suc (suc n)) ≡ true = ground arith in
        rw many (not_found result (rw e (λ h. h.1 n refl)))

    searched-Answer :
        (a : LdapCode × d.Result)
        → Answer a (if_onvacation d clock settings (found_by d (result_of d a.0) a.1 vlu))
    unfolding result_of found_by if_onvacation
    searched-Answer (success, result) = one_match-Answer result _ refl
    searched-Answer (server_down, result) = again down
    searched-Answer (timeout, result) = again late
    searched-Answer (busy, result) = again at_work
    searched-Answer (unavailable, result) = again closed
    searched-Answer (other, result) = again unknown
    searched-Answer (local_error, result) = again here
    searched-Answer (any_other code, result) =
        refused (λ h. let e = h.0 in cc) (not_other code) (inl refl)

  pub ldap_vlu_search-Answer :
      (config : Config) (clock : Option ℕ) (rcpt : Bytes) (vlu : VluLdap d)
      → Answer clock
          (user_settings d config)
          vlu
          (d.ldap_search_ext_s vlu.ld vlu.search_base (codes "uid=" ++ rcpt) vlu.attrs)
          (ldap_vlu_search d config clock rcpt vlu)
  unfolding ldap_vlu_search ldap_vlu_search_common
  ldap_vlu_search-Answer config clock rcpt vlu =
      searched-Answer clock (user_settings d config) vlu _

  pub ldap_vlu_group_search-Answer :
      (y : Yasl) (lconfig : LdapConfig) (clock : Option ℕ) (rcpt : Bytes) (vlu : VluLdap d)
      → Answer clock
          (group_settings d lconfig)
          vlu
          (d.ldap_search_ext_s vlu.ld vlu.group_search_base (group_filter rcpt) vlu.attrs)
          (ldap_vlu_group_search d y lconfig clock rcpt vlu)
  unfolding ldap_vlu_group_search ldap_vlu_search_common
  ldap_vlu_group_search-Answer y lconfig clock rcpt vlu =
      rw (group_filter_lem y rcpt) (searched-Answer clock (group_settings d lconfig) vlu _)

  -- In every case: a search for a user fails for the time being exactly for six codes of the server;
  -- it succeeds, and takes the settings of a user, exactly where the server finds one entry for the
  -- name, or cannot count them, and the first is on vacation; else it fails for good, and takes no
  -- settings. The same holds of a search for a group, whose settings are others, and whose name has its
  -- dots and underscores read as blanks.
  pub searches-Answer :
      (y : Yasl) (config : Config) (lconfig : LdapConfig) (clock : Option ℕ) (rcpt : Bytes)
      (vlu : VluLdap d)
      → Answer clock
          (user_settings d config)
          vlu
          (d.ldap_search_ext_s vlu.ld vlu.search_base (codes "uid=" ++ rcpt) vlu.attrs)
          (ldap_vlu_search d config clock rcpt vlu)
        × Answer clock
            (group_settings d lconfig)
            vlu
            (d.ldap_search_ext_s vlu.ld vlu.group_search_base (group_filter rcpt) vlu.attrs)
            (ldap_vlu_group_search d y lconfig clock rcpt vlu)
  searches-Answer y config lconfig clock rcpt vlu = (
    ldap_vlu_search-Answer config clock rcpt vlu,
    ldap_vlu_group_search-Answer y lconfig clock rcpt vlu,
  )
