-- ===== src/Vlu.antt =====
-- vlu.c and vlu.h: the table of the functions that look a recipient up, and the lookup that finds
-- everyone.
pub mod Directory
pub mod Window
pub mod Ldap
use simvacation.Common.{ℕ, Option, none, some, List, [], ◌∷◌, Bytes, codes, if◌then◌else◌}
use simvacation.CString.{strcasecmp}
use simvacation.Config.{Config, yaslauto}
use simvacation.Vdb.{VacResult, ok}

-- `struct vlu_backend`, over the state `W` outside and the handles `L`. `aliases` is the list of
-- strings that the iteration over the libucl object returns.
pub record VluBackend (W L : Type 0) : Type 0 where
  pub init : W → Option L × W
  pub search : L → Bytes → W → VacResult × W
  pub group_search : L → Bytes → W → VacResult × W
  pub message : L → Bytes → W → Option Bytes
  pub subject_prefix : L → Bytes → W → Bytes
  pub interval : L → Bytes → W → ℕ
  pub aliases : L → Bytes → W → List Bytes
  pub name : L → Bytes → W → Option Bytes
  pub display_name : L → Bytes → W → Option Bytes
  pub close : Option L → W → W

-- The functions that a build with LDAP brings; `close` is not among those that are put in place.
pub record LdapFunctions (W L : Type 0) : Type 0 where
  pub ldap_init : W → Option L × W
  pub ldap_search : L → Bytes → W → VacResult × W
  pub ldap_group_search : L → Bytes → W → VacResult × W
  pub ldap_message : L → Bytes → W → Option Bytes
  pub ldap_subject_prefix : L → Bytes → W → Bytes
  pub ldap_interval : L → Bytes → W → ℕ
  pub ldap_aliases : L → Bytes → W → List Bytes
  pub ldap_name : L → Bytes → W → Option Bytes
  pub ldap_display_name : L → Bytes → W → Option Bytes

module _ {W L : Type 0} where
  -- `allocated` is the answer of `calloc`.
  pub vlu_init : Option L → W → Option L × W
  vlu_init allocated w = (allocated, w)

  pub vlu_search : L → Bytes → W → VacResult × W
  vlu_search vlu rcpt w = (ok, w)

  pub vlu_group_search : L → Bytes → W → VacResult × W
  vlu_group_search vlu rcpt w = (ok, w)

  pub vlu_aliases : L → Bytes → W → List Bytes
  vlu_aliases vlu rcpt w = rcpt ∷ []

  pub vlu_message : L → Bytes → W → Option Bytes
  vlu_message vlu rcpt w = none

  pub vlu_subject_prefix : Config → L → Bytes → W → Bytes
  vlu_subject_prefix config vlu rcpt w = yaslauto config.core_subject_prefix

  pub vlu_interval : Config → L → Bytes → W → ℕ
  vlu_interval config vlu rcpt w = config.core_interval

  pub vlu_name : L → Bytes → W → Option Bytes
  vlu_name vlu rcpt w = some rcpt

  pub vlu_display_name : L → Bytes → W → Option Bytes
  vlu_display_name vlu rcpt w = some rcpt

  pub vlu_close : Option L → W → W
  vlu_close vlu w = w

  unfoldable pub null_vlu : Option L → Config → VluBackend W L
  unfolding vlu_init vlu_search vlu_group_search vlu_aliases vlu_message vlu_subject_prefix
      vlu_interval vlu_name vlu_display_name vlu_close
  null_vlu allocated config = record {
    init = vlu_init allocated;
    search = vlu_search;
    group_search = vlu_group_search;
    message = vlu_message;
    subject_prefix = vlu_subject_prefix config;
    interval = vlu_interval config;
    aliases = vlu_aliases;
    name = vlu_name;
    display_name = vlu_display_name;
    close = vlu_close;
  }

  unfoldable pub put_ldap : VluBackend W L → LdapFunctions W L → VluBackend W L
  put_ldap b l = record b {
    init = l.ldap_init;
    search = l.ldap_search;
    group_search = l.ldap_group_search;
    message = l.ldap_message;
    subject_prefix = l.ldap_subject_prefix;
    interval = l.ldap_interval;
    aliases = l.ldap_aliases;
    name = l.ldap_name;
    display_name = l.ldap_display_name;
  }

  with_ldap : VluBackend W L → Option (LdapFunctions W L) → Option (VluBackend W L)
  unfolding put_ldap
  with_ldap b none = none
  with_ldap b (some l) = some (put_ldap b l)

  unfoldable pub vlu_backend :
      Option L → Option (LdapFunctions W L) → Config → Bytes → Option (VluBackend W L)
  unfolding null_vlu with_ldap
  vlu_backend allocated ldap config provider =
      if strcasecmp provider (codes "ldap")
      then with_ldap (null_vlu allocated config) ldap
      else if strcasecmp provider (codes "null")
      then some (null_vlu allocated config)
      else none
