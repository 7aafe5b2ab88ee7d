-- ===== src/Vlu/Ldap.antt =====
-- vlu_ldap.c: the lookup in LDAP. The structure behind the handle is a part of the state, which a
-- Slot of Vlu/Ldap/Table reads and writes; the handle itself holds nothing.
pub mod Init
pub mod Table
pub mod Search
pub mod Message
use simvacation.Common.{
  ℕ, ◌+◌, Bool, true, false, ◌&&◌, Option, none, some, List, [], ◌∷◌, ◌++◌, ◌==◌, ltb,
  if◌then◌else◌, Bytes, codes, length, ℤ, pos, negsuc,
}
use simvacation.Yasl.{Yasl}
use simvacation.Config.{Config, LdapConfig, yaslauto}
use simvacation.Vdb.{VacResult, ok, tempfail, permfail}
use simvacation.Vlu.Directory.{
  Directory, LdapCode, success, server_down, timeout, busy, unavailable, other, local_error,
  any_other,
}
use simvacation.Vlu.Window.{onvacation_at, value_true}

-- `struct vlu_ldap`. `attr_msg` is `NULL` before a search.
pub record VluLdap (d : Directory) : Type 0 where
  pub ld : d.Conn
  pub result : Option d.Entry
  pub default_msg : Bytes
  pub subject_prefix : Bytes
  pub interval : ℕ
  pub attr_vacation : Bytes
  pub attr_vacation_msg : Bytes
  pub attr_group_msg : Bytes
  pub attr_name : Bytes
  pub attr_msg : Option Bytes
  pub attr_autoreply_start : Bytes
  pub attr_autoreply_end : Bytes
  pub search_base : Bytes
  pub group_search_base : Bytes
  pub attrs : List Bytes

module _ (d : Directory) where
  unfoldable pub ldap_vlu_onvacation : Option ℕ → VluLdap d → Bool
  unfolding onvacation_at value_true
  ldap_vlu_onvacation clock vlu =
      onvacation_at clock (value_true (d.ldap_get_values_len vlu.ld vlu.result vlu.attr_vacation))
        (d.ldap_get_values_len vlu.ld vlu.result vlu.attr_autoreply_start)
        (d.ldap_get_values_len vlu.ld vlu.result vlu.attr_autoreply_end)

  -- The `switch` on the result of the search.
  pub result_of : LdapCode → VacResult
  result_of success = ok
  result_of server_down = tempfail
  result_of timeout = tempfail
  result_of busy = tempfail
  result_of unavailable = tempfail
  result_of other = tempfail
  result_of local_error = tempfail
  result_of (any_other code) = permfail

  one_match : d.Result → ℤ → VluLdap d → VacResult × VluLdap d
  one_match result (negsuc n) vlu = (ok, record vlu { result = d.ldap_first_entry vlu.ld result })
  one_match result (pos matches) vlu =
      if ltb 1 matches
      then (permfail, vlu)
      else if matches == 0
      then (permfail, vlu)
      else (ok, record vlu { result = d.ldap_first_entry vlu.ld result })

  found_by : VacResult → d.Result → VluLdap d → VacResult × VluLdap d
  unfolding one_match
  found_by ok result vlu = one_match result (d.ldap_count_entries vlu.ld result) vlu
  found_by retval result vlu = (retval, vlu)

  pub ldap_vlu_search_common : Bytes → Bytes → VluLdap d → VacResult × VluLdap d
  unfolding result_of found_by
  ldap_vlu_search_common filter search_base vlu =
      let (rc, result) = d.ldap_search_ext_s vlu.ld search_base filter vlu.attrs in
      found_by (result_of rc) result vlu

  -- What a search does once the entry is found: `settings` are the fields that it sets.
  if_onvacation : Option ℕ → (VluLdap d → VluLdap d) → VacResult × VluLdap d → VacResult × VluLdap d
  if_onvacation clock settings (ok, vlu) =
      if ldap_vlu_onvacation clock vlu then (ok, settings vlu) else (permfail, vlu)
  if_onvacation clock settings (retval, vlu) = (retval, vlu)

  abbrev pub user_settings : Config → VluLdap d → VluLdap d
  user_settings config vlu = record vlu {
    attr_msg = some vlu.attr_vacation_msg;
    subject_prefix = yaslauto config.core_subject_prefix;
    interval = config.core_interval;
  }

  abbrev pub group_settings : LdapConfig → VluLdap d → VluLdap d
  group_settings lconfig vlu = record vlu {
    attr_msg = some vlu.attr_group_msg;
    default_msg = yaslauto lconfig.core_default_group_message;
    subject_prefix = yaslauto lconfig.core_group_subject_prefix;
    interval = lconfig.core_group_interval;
  }

  -- `filter` has 64 bytes: the model is for names that it can hold, of up to 59 bytes.
  unfoldable pub ldap_vlu_search : Config → Option ℕ → Bytes → VluLdap d → VacResult × VluLdap d
  unfolding if_onvacation ldap_vlu_search_common
  ldap_vlu_search config clock rcpt vlu =
      if_onvacation clock (user_settings config)
        (ldap_vlu_search_common (codes "uid=" ++ rcpt) vlu.search_base vlu)

  unfoldable pub ldap_vlu_group_search :
      Yasl → LdapConfig → Option ℕ → Bytes → VluLdap d → VacResult × VluLdap d
  unfolding if_onvacation ldap_vlu_search_common
  ldap_vlu_group_search y lconfig clock rcpt vlu =
      let filter = y.yaslmapchars (y.yaslcatyasl (codes "cn=") rcpt) (codes "._") (codes "  ") 2 in
      if_onvacation clock (group_settings lconfig)
        (ldap_vlu_search_common filter vlu.group_search_base vlu)

  abbrev values : Option (Bytes × List Bytes) → List Bytes
  values none = []
  values (some (bv, rest)) = bv ∷ rest

  unfoldable pub ldap_vlu_aliases : Bytes → VluLdap d → List Bytes
  ldap_vlu_aliases rcpt vlu = rcpt ∷ values (d.ldap_get_values_len vlu.ld vlu.result (codes "cn"))

  -- `for (…) vacmsg = yaslcatlen(vacmsg, rawmsg[ i ]->bv_val, rawmsg[ i ]->bv_len)`
  cat_values : Yasl → Bytes → List Bytes → Bytes
  cat_values y vacmsg [] = vacmsg
  cat_values y vacmsg (bv ∷ rest) = cat_values y (y.yaslcatlen vacmsg bv (length bv)) rest

  message_of : Yasl → Bytes → Option (Bytes × List Bytes) → Bytes
  unfolding cat_values
  message_of y default_msg none = default_msg
  message_of y default_msg (some (bv, rest)) =
      y.yaslmapchars (cat_values y [] (bv ∷ rest)) (codes "$") (codes "\n") 1

  -- A search that has succeeded has set `attr_msg`; all attributes are asked for by name.
  unfoldable pub ldap_vlu_message : Yasl → VluLdap d → Option Bytes
  unfolding message_of
  ldap_vlu_message y vlu = some (
      message_of y vlu.default_msg
        (d.ldap_get_values_len vlu.ld vlu.result (yaslauto vlu.attr_msg)))

  rdn_or : Option Bytes → Bytes → Bytes
  rdn_or none rcpt = rcpt
  rdn_or (some bv) rcpt = bv

  pub ldap_vlu_name : Bytes → VluLdap d → Option Bytes
  unfolding rdn_or
  ldap_vlu_name rcpt vlu = some (rdn_or (d.ldap_str2dn (d.ldap_get_dn vlu.ld vlu.result)) rcpt)

  -- Here the name in parts is read unseen: one that cannot be parsed is a `NULL` that is read, which
  -- the model gives as no name.
  display_of : VluLdap d → Option (Bytes × List Bytes) → Option Bytes
  display_of vlu none = d.ldap_str2dn (d.ldap_get_dn vlu.ld vlu.result)
  display_of vlu (some (bv, rest)) = some bv

  unfoldable pub ldap_vlu_display_name : VluLdap d → Option Bytes
  unfolding display_of
  ldap_vlu_display_name vlu = display_of vlu (d.ldap_get_values_len vlu.ld vlu.result vlu.attr_name)

  unfoldable pub ldap_vlu_subject_prefix : VluLdap d → Bytes
  ldap_vlu_subject_prefix vlu = vlu.subject_prefix

  unfoldable pub ldap_vlu_interval : VluLdap d → ℕ
  ldap_vlu_interval vlu = vlu.interval
