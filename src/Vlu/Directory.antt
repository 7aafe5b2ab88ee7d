-- ===== src/Vlu/Directory.antt =====
-- LDAP (libldap) as vlu_ldap.c calls it: a parameter of the model. The answers of the server do not
-- change in a run.
use simvacation.Common.{ℕ, Option, List, Bytes, ℤ}

-- The result codes that the code tells apart.
pub data LdapCode : Type 0 where
  success server_down timeout busy unavailable other local_error : LdapCode
  any_other : ℕ → LdapCode

pub record Directory : Type 1 where
  pub Conn : Type 0
  pub Result : Type 0
  pub Entry : Type 0
  pub ldap_initialize : Bytes → LdapCode × Conn
  -- `LDAP_OPT_PROTOCOL_VERSION`, version 3
  pub ldap_set_option : Conn → LdapCode
  -- the anonymous bind
  pub ldap_sasl_bind_s : Conn → LdapCode
  -- The search base, the filter and the attributes, in the subtree.
  pub ldap_search_ext_s : Conn → Bytes → Bytes → List Bytes → LdapCode × Result
  -- -1 for an error
  pub ldap_count_entries : Conn → Result → ℤ
  pub ldap_first_entry : Conn → Result → Option Entry
  -- The first value and the others; `NULL` where there is none. An entry of `NULL` has none.
  pub ldap_get_values_len : Conn → Option Entry → Bytes → Option (Bytes × List Bytes)
  -- `NULL` for an error
  pub ldap_get_dn : Conn → Option Entry → Option Bytes
  -- The first value of a name in parts, `none` where it cannot be parsed.
  pub ldap_str2dn : Option Bytes → Option Bytes
