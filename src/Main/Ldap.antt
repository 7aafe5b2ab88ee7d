-- ===== src/Main/Ldap.antt =====
-- Runs with the lookup in LDAP, over any state that holds its structure and a clock.
pub mod Message
pub mod Interval
pub mod Default
use simvacation.Common.{
  ℕ, ◌+◌, ◌<◌, ◌≡◌, ◌≢◌, ◌⊎◌, inl, inr, refl, sym, ap, ◌∙◌, true, some, Option, Bytes,
}
use simvacation.Yasl.{Yasl}
use simvacation.Config.{Config, LdapConfig, yaslauto}
use simvacation.Sender.{check_from}
use simvacation.Vdb.{VacResult, ok, permfail, VdbBackend}
use simvacation.Vdb.Mdb.{Mdb, IsStore}
use simvacation.Vdb.Lmdb.{Opening, lmdb_vdb_store_reply}
use simvacation.Vdb.Lmdb.Recent.{CanRead}
use simvacation.Vlu.{VluBackend, null_vlu, put_ldap}
use simvacation.Vlu.Directory.{Directory}
use simvacation.Vlu.Ldap.{
  VluLdap, ldap_vlu_subject_prefix, ldap_vlu_interval, ldap_vlu_onvacation, user_settings,
  group_settings, ldap_vlu_search, ldap_vlu_group_search,
}
use simvacation.Vlu.Ldap.Search.{
  Answer-ok, Answer-permfail, ldap_vlu_search-Answer, ldap_vlu_group_search-Answer,
}
use simvacation.Vlu.Ldap.Table.{Slot, put_back, ldap_functions}
use simvacation.Reply.{Mail}
use simvacation.Main.{Call, exited, look_up}
use simvacation.Main.Checks.{Found}
use simvacation.Main.Interval.{World, KeepsReplies, lmdb_backend, once_per_interval}

-- The structure stands apart from the clock.
pub record IsSlot {W S : Type 0} (slot : Slot W S) (clock : W → Option ℕ) : Type 0 where
  pub read_write : (v : S) (w : W) → slot.read (slot.write v w) ≡ v
  pub clock_write : (v : S) (w : W) → clock (slot.write v w) ≡ clock w

-- `clock` is the one that the lookup reads.
module _ {W : Type 0} (d : Directory) (slot : Slot W (VluLdap d)) (clock : W → Option ℕ) where
  unfoldable pub ldap_backend : Yasl → Config → LdapConfig → VluBackend (W) (Unit {0})
  unfolding null_vlu put_ldap ldap_functions
  ldap_backend y config lconfig =
      put_ldap (null_vlu (some tt) config) (ldap_functions d slot y true true config lconfig clock)

  module _ (laws : IsSlot slot clock) (y : Yasl) (config : Config) (lconfig : LdapConfig) where
    abbrev pub backend : VluBackend (W) (Unit {0})
    backend = ldap_backend y config lconfig

    -- What the two searches of the table are in vlu_ldap.c.
    search-user :
        (rcpt : Bytes) (w : W)
        → backend.search tt rcpt w
          ≡ put_back d slot (ldap_vlu_search d config (clock w) rcpt (slot.read w)) w
    unfolding ldap_backend null_vlu put_ldap ldap_functions
    search-user rcpt w = refl

    search-group :
        (rcpt : Bytes) (w : W)
        → backend.group_search tt rcpt w
          ≡ put_back d slot (ldap_vlu_group_search d y lconfig (clock w) rcpt (slot.read w)) w
    unfolding ldap_backend null_vlu put_ldap ldap_functions
    search-group rcpt w = refl

    put_back-parts :
        (p : VacResult × VluLdap d) (w : W) {rc : VacResult} {v : W}
        → put_back d slot p w ≡ (rc, v)
        → (p.0 ≡ rc) × (slot.read v ≡ p.1) × (clock v ≡ clock w)
    unfolding put_back
    put_back-parts p w h = (
      ap (λ q. q.0) h,
      sym (ap (λ q. slot.read q.1) h) ∙ laws.read_write p.1 w,
      sym (ap (λ q. clock q.1) h) ∙ laws.clock_write p.1 w,
    )

    -- The settings do not matter for whether one is on vacation.
    on_vacation_as_user :
        (at : Option ℕ) (v : VluLdap d)
        → ldap_vlu_onvacation d at (user_settings d config v) ≡ ldap_vlu_onvacation d at v
    unfolding ldap_vlu_onvacation
    on_vacation_as_user at v = refl

    on_vacation_as_group :
        (at : Option ℕ) (v : VluLdap d)
        → ldap_vlu_onvacation d at (group_settings d lconfig v) ≡ ldap_vlu_onvacation d at v
    unfolding ldap_vlu_onvacation
    on_vacation_as_group at v = refl

    -- What a reply is made with: the settings of a user, or those of a group. `before` is the structure
    -- before the search.
    pub record AsUser (rcpt : Bytes) (before : VluLdap d) (v : W) : Type 0 where
      pub user_interval : backend.interval tt rcpt v ≡ config.core_interval
      pub user_prefix : backend.subject_prefix tt rcpt v ≡ yaslauto config.core_subject_prefix
      pub user_attribute : (slot.read v).attr_msg ≡ some before.attr_vacation_msg
      pub user_default : (slot.read v).default_msg ≡ before.default_msg
      pub user_on_vacation : ldap_vlu_onvacation d (clock v) (slot.read v) ≡ true

    pub record AsGroup (rcpt : Bytes) (before : VluLdap d) (v : W) : Type 0 where
      pub group_interval : backend.interval tt rcpt v ≡ lconfig.core_group_interval
      pub group_prefix :
          backend.subject_prefix tt rcpt v ≡ yaslauto lconfig.core_group_subject_prefix
      pub group_attribute : (slot.read v).attr_msg ≡ some before.attr_group_msg
      pub group_default : (slot.read v).default_msg ≡ yaslauto lconfig.core_default_group_message
      pub group_on_vacation : ldap_vlu_onvacation d (clock v) (slot.read v) ≡ true

    user-found :
        (rcpt : Bytes) (w v : W) → backend.search tt rcpt w ≡ (ok, v) → AsUser rcpt (slot.read w) v
    unfolding ldap_backend null_vlu put_ldap ldap_functions ldap_vlu_subject_prefix
        ldap_vlu_interval
    user-found rcpt w v h =
        let p = ldap_vlu_search d config (clock w) rcpt (slot.read w) in
        let (rc, rest, kept) = put_back-parts p w (sym (search-user rcpt w) ∙ h) in
        let (seen, left) =
          Answer-ok d (clock w) (user_settings d config) (slot.read w)
            (ldap_vlu_search-Answer d config (clock w) rcpt (slot.read w)) rc in
        let e = rest ∙ left in
        record {
          user_interval = ap (λ r. r.interval) e;
          user_prefix = ap (λ r. r.subject_prefix) e;
          user_attribute = ap (λ r. r.attr_msg) e;
          user_default = ap (λ r. r.default_msg) e;
          user_on_vacation = rw (e, kept) (on_vacation_as_user (clock w) _ ∙ seen.2);
        }

    group-found :
        (rcpt : Bytes) (w v : W)
        → backend.group_search tt rcpt w ≡ (ok, v)
        → AsGroup rcpt (slot.read w) v
    unfolding ldap_backend null_vlu put_ldap ldap_functions ldap_vlu_subject_prefix
        ldap_vlu_interval
    group-found rcpt w v h =
        let p = ldap_vlu_group_search d y lconfig (clock w) rcpt (slot.read w) in
        let (rc, rest, kept) = put_back-parts p w (sym (search-group rcpt w) ∙ h) in
        let (seen, left) =
          Answer-ok d (clock w) (group_settings d lconfig) (slot.read w)
            (ldap_vlu_group_search-Answer d y lconfig (clock w) rcpt (slot.read w)) rc in
        let e = rest ∙ left in
        record {
          group_interval = ap (λ r. r.interval) e;
          group_prefix = ap (λ r. r.subject_prefix) e;
          group_attribute = ap (λ r. r.attr_msg) e;
          group_default = ap (λ r. r.default_msg) e;
          group_on_vacation = rw (e, kept) (on_vacation_as_group (clock w) _ ∙ seen.2);
        }

    refused-attribute :
        (rcpt : Bytes) (w u : W)
        → backend.search tt rcpt w ≡ (permfail, u)
        → (slot.read u).attr_group_msg ≡ (slot.read w).attr_group_msg
    refused-attribute rcpt w u h =
        let p = ldap_vlu_search d config (clock w) rcpt (slot.read w) in
        let (rc, rest, kept) = put_back-parts p w (sym (search-user rcpt w) ∙ h) in
        ap (λ v. v.attr_group_msg) rest
        ∙ Answer-permfail d (clock w) (user_settings d config) (slot.read w)
            (ldap_vlu_search-Answer d config (clock w) rcpt (slot.read w)) rc

    -- A recipient that `main` finds in LDAP is on vacation, and is either a user, and then the reply is
    -- made with the user's interval, subject prefix and message; or the search for a user has failed for
    -- good, and it is a group, and the reply is made with those of the groups.
    pub Found-ldap :
        {V : Type 0} (vdb : VdbBackend W V) (call : Call) (rcpt : Bytes) (w v : W)
        → Found y config call vdb backend tt rcpt w v
        → AsUser rcpt (slot.read w) v
          ⊎ (((backend.search tt rcpt w).0 ≡ permfail) × AsGroup rcpt (slot.read w) v)
    Found-ldap vdb call rcpt w v (inl e) = inl (user-found rcpt w v e)
    Found-ldap vdb call rcpt w v (inr (u, e, f)) =
        let g = group-found rcpt u v f in
        inr (
          ap (λ p. p.0) e,
          record {
            group_interval = g.group_interval;
            group_prefix = g.group_prefix;
            group_attribute = g.group_attribute ∙ ap (λ a. some a) (refused-attribute rcpt w u e);
            group_default = g.group_default;
            group_on_vacation = g.group_on_vacation;
          },
        )

    pub interval-Found :
        {V : Type 0} (vdb : VdbBackend W V) (call : Call) (rcpt : Bytes) (w v : W) (t now : ℕ)
        → Found y config call vdb backend tt rcpt w v
        → now < t + config.core_interval
        → now < t + lconfig.core_group_interval
        → now < t + backend.interval tt rcpt v
    interval-Found vdb call rcpt w v t now f h k = elim (Found-ldap vdb call rcpt w v f) [
      | inl a ↦ rw a.user_interval h
      | inr b ↦ rw b.1.group_interval k
    ]
