-- ===== src/Vlu/Ldap/Table.antt =====
-- vlu_ldap.c as the functions of a lookup, over a state that holds its structure.
use simvacation.Common.{ℕ, Bool, Option, none, some}
use simvacation.Yasl.{Yasl}
use simvacation.Config.{Config, LdapConfig}
use simvacation.Vdb.{VacResult}
use simvacation.Vlu.{LdapFunctions}
use simvacation.Vlu.Directory.{Directory}
use simvacation.Vlu.Ldap.{
  VluLdap, ldap_vlu_search, ldap_vlu_group_search, ldap_vlu_aliases, ldap_vlu_message,
  ldap_vlu_subject_prefix, ldap_vlu_interval, ldap_vlu_name, ldap_vlu_display_name,
}
use simvacation.Vlu.Ldap.Init.{ldap_vlu_init}

-- Where the structure stands in the state outside.
pub record Slot (W S : Type 0) : Type 0 where
  pub read : W → S
  pub write : S → W → W

module _ {W : Type 0} (d : Directory) (slot : Slot W (VluLdap d)) where
  handle_of : Option (VluLdap d) → W → Option (Unit {0}) × W
  handle_of none w = (none, w)
  handle_of (some vlu) w = (some tt, slot.write vlu w)

  unfoldable pub put_back : VacResult × VluLdap d → W → VacResult × W
  put_back (rc, vlu) w = (rc, slot.write vlu w)

  -- `clock` is what `clock_gettime` answers.
  unfoldable pub ldap_functions :
      Yasl → Bool → Bool → Config → LdapConfig → (W → Option ℕ) → LdapFunctions W (Unit {0})
  unfolding handle_of put_back ldap_vlu_subject_prefix ldap_vlu_interval ldap_vlu_name
  ldap_functions y vlu vlu_ldap config lconfig clock = record {
    ldap_init = λ w. handle_of (ldap_vlu_init d vlu vlu_ldap config lconfig) w;
    ldap_search = λ v rcpt w. put_back (ldap_vlu_search d config (clock w) rcpt (slot.read w)) w;
    ldap_group_search =
        λ v rcpt w. put_back (ldap_vlu_group_search d y lconfig (clock w) rcpt (slot.read w)) w;
    ldap_message = λ v rcpt w. ldap_vlu_message d y (slot.read w);
    ldap_subject_prefix = λ v rcpt w. ldap_vlu_subject_prefix d (slot.read w);
    ldap_interval = λ v rcpt w. ldap_vlu_interval d (slot.read w);
    ldap_aliases = λ v rcpt w. ldap_vlu_aliases d rcpt (slot.read w);
    ldap_name = λ v rcpt w. ldap_vlu_name d rcpt (slot.read w);
    ldap_display_name = λ v rcpt w. ldap_vlu_display_name d (slot.read w);
  }
