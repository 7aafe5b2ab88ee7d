-- ===== src/Tests/Directory.antt =====
-- A directory with one user and one group, to run vlu_ldap.c with.
use simvacation.Common.{
  Option, none, some, List, [], ◌∷◌, Bytes, codes, length, pos, if◌then◌else◌, same,
}
use simvacation.Config.{LdapConfig}
use simvacation.Vlu.Directory.{Directory, LdapCode, success, busy}
use simvacation.Vlu.Ldap.{VluLdap}

-- The names of the attributes with their values.
abbrev pub Attributes : Type 0
Attributes = List (Bytes × Bytes × List Bytes)

abbrev values_of : Attributes → Bytes → Option (Bytes × List Bytes)
values_of [] name = none
values_of ((attr, bv, others) ∷ entry) name =
    let rest = values_of entry name in if same attr name then some (bv, others) else rest

abbrev values_in : Option Attributes → Bytes → Option (Bytes × List Bytes)
values_in none name = none
values_in (some entry) name = values_of entry name

abbrev first : List Attributes → Option Attributes
first [] = none
first (entry ∷ entries) = some entry

abbrev pub al : Attributes
al =
    (codes "cn", codes "Al B", codes "ab" ∷ [])
    ∷ (codes "status", codes "true", [])
    ∷ (codes "text", codes "Gone$fishing", [])
    ∷ []

-- Away from 2026 on, with no status.
abbrev pub team : Attributes
team =
    (codes "cn", codes "the team", [])
    ∷ (codes "start", codes "20260101000000Z", [])
    ∷ (codes "end", codes "20270101000000Z", [])
    ∷ []

abbrev answer : Bytes → LdapCode × List Attributes
answer filter =
    if same filter (codes "uid=al")
    then (success, al ∷ [])
    else if same filter (codes "cn=the team")
    then (success, team ∷ [])
    else if same filter (codes "uid=busy")
    then (busy, [])
    else (success, [])

abbrev pub directory : Directory
directory = record {
  Conn = Unit;
  Result = List Attributes;
  Entry = Attributes;
  ldap_initialize = λ uri. (success, tt);
  ldap_set_option = λ ld. success;
  ldap_sasl_bind_s = λ ld. success;
  ldap_search_ext_s = λ ld base filter attrs. answer filter;
  ldap_count_entries = λ ld result. pos (length result);
  ldap_first_entry = λ ld result. first result;
  ldap_get_values_len = λ ld entry name. values_in entry name;
  ldap_get_dn = λ ld entry. some (codes "uid=x,dc=ex");
  ldap_str2dn = λ dn. some (codes "x");
}

abbrev pub ldap_settings : LdapConfig
ldap_settings = record {
  ldap_search_base = some (codes "ou=People");
  ldap_group_search_base = some (codes "ou=Groups");
  ldap_attributes_vacation = some (codes "status");
  ldap_attributes_autoreply_start = some (codes "start");
  ldap_attributes_autoreply_end = some (codes "end");
  ldap_attributes_vacation_message = some (codes "text");
  ldap_attributes_group_message = some (codes "group");
  ldap_attributes_name = some (codes "name");
  ldap_uri = some (codes "ldap://ex/");
  core_default_group_message = some (codes "a group");
  core_group_subject_prefix = some (codes "Auto");
  core_group_interval = 200;
}

-- The structure that `ldap_vlu_init` makes.
abbrev pub bound : VluLdap directory
bound = record {
  ld = tt;
  result = none;
  default_msg = codes "away";
  subject_prefix = [];
  interval = 0;
  attr_vacation = codes "status";
  attr_vacation_msg = codes "text";
  attr_group_msg = codes "group";
  attr_name = codes "name";
  attr_msg = none;
  attr_autoreply_start = codes "start";
  attr_autoreply_end = codes "end";
  search_base = codes "ou=People";
  group_search_base = codes "ou=Groups";
  attrs =
      codes "cn"
      ∷ codes "status"
      ∷ codes "text"
      ∷ codes "name"
      ∷ codes "group"
      ∷ codes "start"
      ∷ codes "end"
      ∷ [];
}
