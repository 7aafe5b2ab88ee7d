-- ===== src/Main/Ldap/Message.antt =====
-- The message of the recipient that is found in LDAP.
use simvacation.Common.{ℕ, Option, ◌≡◌, ◌⊎◌, inl, inr, ap, ◌∙◌, some, Bytes}
use simvacation.Yasl.{Yasl}
use simvacation.Config.{Config, LdapConfig, yaslauto}
use simvacation.Vdb.{permfail}
use simvacation.Vlu.{null_vlu, put_ldap}
use simvacation.Vlu.Directory.{Directory}
use simvacation.Vlu.Ldap.{VluLdap}
use simvacation.Vlu.Ldap.Message.{spoken, ldap_vlu_message-spoken}
use simvacation.Vlu.Ldap.Table.{Slot, ldap_functions}
use simvacation.Main.{Call}
use simvacation.Main.Checks.{Found}
use simvacation.Vlu.{VluBackend}
use simvacation.Vdb.{VdbBackend}
use simvacation.Main.Ldap.{IsSlot, ldap_backend, Found-ldap}

module _ {W : Type 0} (d : Directory) (slot : Slot W (VluLdap d)) (clock : W → Option ℕ)
    (laws : IsSlot slot clock) (y : Yasl) (config : Config) (lconfig : LdapConfig) where
  abbrev vlu : VluBackend W (Unit {0})
  vlu = ldap_backend d slot clock y config lconfig

  -- The message that `main` is given for the entry found, with its default and the attribute of it.
  abbrev pub Speaks : Bytes → W → Bytes → Bytes → Type 0
  Speaks rcpt v otherwise attr =
      vlu.message tt rcpt v
      ≡ some (spoken otherwise (d.ldap_get_values_len (slot.read v).ld (slot.read v).result attr))

  message-spoken :
      (rcpt : Bytes) (v : W) (otherwise attr : Bytes)
      → (slot.read v).attr_msg ≡ some attr
      → (slot.read v).default_msg ≡ otherwise
      → Speaks rcpt v otherwise attr
  unfolding ldap_backend null_vlu put_ldap ldap_functions
  message-spoken rcpt v otherwise attr a e =
      ldap_vlu_message-spoken d y (slot.read v) attr a
      ∙ ap (λ o. some (spoken o (d.ldap_get_values_len (slot.read v).ld (slot.read v).result attr)))
          e

  -- What a recipient that `main` finds in LDAP says: the values of the message attribute of the entry,
  -- one after the other and with a new line for each `$`, or the default message where it has none;
  -- they are those of the users, or, where the search for a user has failed for good, those of the
  -- groups.
  pub message-Found :
      {V : Type 0} (vdb : VdbBackend W V) (call : Call) (rcpt : Bytes) (w v : W)
      → Found y config call vdb vlu tt rcpt w v
      → Speaks rcpt v (slot.read w).default_msg (slot.read w).attr_vacation_msg
        ⊎ (((vlu.search tt rcpt w).0 ≡ permfail)
            × Speaks rcpt v
                (yaslauto lconfig.core_default_group_message)
                (slot.read w).attr_group_msg)
  message-Found vdb call rcpt w v f =
      elim (Found-ldap d slot clock laws y config lconfig vdb call rcpt w v f) [
        | inl a ↦ inl (message-spoken rcpt v _ _ a.user_attribute a.user_default)
        | inr (p, g) ↦ inr (p, message-spoken rcpt v _ _ g.group_attribute g.group_default)
      ]
