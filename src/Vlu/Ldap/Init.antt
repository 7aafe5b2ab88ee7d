-- ===== src/Vlu/Ldap/Init.antt =====
-- vlu_ldap.c, ldap_vlu_init.
use simvacation.Common.{Bool, true, false, Option, none, some, [], ◌∷◌, codes, ◌>>=◌, ◌>>◌}
use simvacation.Config.{Config, LdapConfig, yaslauto}
use simvacation.Vlu.Directory.{
  Directory, LdapCode, success, server_down, timeout, busy, unavailable, other, local_error,
  any_other,
}
use simvacation.Vlu.Ldap.{VluLdap}

-- A test that leads to `return NULL`.
abbrev succeeds : LdapCode → Option (Unit {0})
succeeds success = some tt
succeeds server_down = none
succeeds timeout = none
succeeds busy = none
succeeds unavailable = none
succeeds other = none
succeeds local_error = none
succeeds (any_other code) = none

abbrev allocation : Bool → Option (Unit {0})
allocation true = some tt
allocation false = none

module _ (d : Directory) where
  -- `vlu` and `vlu->ldap` are the answers of the two `calloc`. The list of attributes ends in a `NULL`.
  unfoldable pub ldap_vlu_init : Bool → Bool → Config → LdapConfig → Option (VluLdap d)
  ldap_vlu_init vlu vlu_ldap config lconfig = do
    allocation vlu
    allocation vlu_ldap
    search_base ← lconfig.ldap_search_base
    group_search_base ← lconfig.ldap_group_search_base
    attr_vacation ← lconfig.ldap_attributes_vacation
    attr_autoreply_start ← lconfig.ldap_attributes_autoreply_start
    attr_autoreply_end ← lconfig.ldap_attributes_autoreply_end
    let default_msg = yaslauto config.core_default_message
    attr_vacation_msg ← lconfig.ldap_attributes_vacation_message
    attr_group_msg ← lconfig.ldap_attributes_group_message
    attr_name ← lconfig.ldap_attributes_name
    uri ← lconfig.ldap_uri
    let (rc, ld) = d.ldap_initialize uri
    succeeds rc
    succeeds (d.ldap_set_option ld)
    succeeds (d.ldap_sasl_bind_s ld)
    some (record {
      ld = ld;
      result = none;
      default_msg = default_msg;
      subject_prefix = [];
      interval = 0;
      attr_vacation = attr_vacation;
      attr_vacation_msg = attr_vacation_msg;
      attr_group_msg = attr_group_msg;
      attr_name = attr_name;
      attr_msg = none;
      attr_autoreply_start = attr_autoreply_start;
      attr_autoreply_end = attr_autoreply_end;
      search_base = search_base;
      group_search_base = group_search_base;
      attrs =
          codes "cn"
          ∷ attr_vacation
          ∷ attr_vacation_msg
          ∷ attr_name
          ∷ attr_group_msg
          ∷ attr_autoreply_start
          ∷ attr_autoreply_end
          ∷ [];
    })
