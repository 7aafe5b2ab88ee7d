-- ===== src/Config.antt =====
-- The configuration (`vac_config`, a libucl object) as the program asks for it: what
-- `ucl_object_tostring` of `ucl_object_lookup_path` answers for a path, `none` for `NULL`, and
-- for `core.interval` the number that `ucl_object_todouble` answers, as a `time_t`.
pub mod Ucl
pub mod Reading
use simvacation.Common.{ℕ, Option, none, some, [], Bytes}

pub record Config : Type 0 where
  pub core_vdb : Option Bytes
  pub core_vlu : Option Bytes
  pub core_domain : Option Bytes
  pub core_sendmail : Option Bytes
  pub core_default_message : Option Bytes
  pub core_subject_prefix : Option Bytes
  pub core_interval : ℕ

-- The paths of the configuration that only the lookup in LDAP asks for; `none` where
-- `ucl_object_tostring_safe` fails.
pub record LdapConfig : Type 0 where
  pub ldap_search_base : Option Bytes
  pub ldap_group_search_base : Option Bytes
  pub ldap_attributes_vacation : Option Bytes
  pub ldap_attributes_autoreply_start : Option Bytes
  pub ldap_attributes_autoreply_end : Option Bytes
  pub ldap_attributes_vacation_message : Option Bytes
  pub ldap_attributes_group_message : Option Bytes
  pub ldap_attributes_name : Option Bytes
  pub ldap_uri : Option Bytes
  pub core_default_group_message : Option Bytes
  pub core_group_subject_prefix : Option Bytes
  pub core_group_interval : ℕ

-- `yaslauto(s)`: the copy of `NULL` is the empty string.
abbrev pub yaslauto : Option Bytes → Bytes
yaslauto none = []
yaslauto (some s) = s
