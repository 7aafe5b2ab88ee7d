-- ===== src/Main/Ldap/Interval.antt =====
-- At most one reply within the interval, with the lookup in LDAP.
use simvacation.Common.{ℕ, ◌+◌, ◌<◌, ◌≡◌, ◌≢◌, refl, Option, some, Bytes}
use simvacation.Yasl.{Yasl}
use simvacation.Config.{Config, LdapConfig}
use simvacation.Sender.{check_from}
use simvacation.Vdb.{ok}
use simvacation.Vdb.Mdb.{Mdb, IsStore}
use simvacation.Vdb.Lmdb.{Opening, lmdb_vdb_store_reply}
use simvacation.Vdb.Lmdb.Recent.{CanRead}
use simvacation.Vlu.{VluBackend}
use simvacation.Vlu.Directory.{Directory}
use simvacation.Vlu.Ldap.{VluLdap}
use simvacation.Reply.{Mail}
use simvacation.Main.{Call, exited, look_up}
use simvacation.Main.Interval.{World, KeepsReplies, lmdb_backend, once_per_interval}
use simvacation.Vlu.{null_vlu, put_ldap}
use simvacation.Vlu.Ldap.Table.{Slot, put_back, ldap_functions}
use simvacation.Main.Ldap.{IsSlot, ldap_backend, interval-Found}

module _ (d : Directory) (m : Mdb) where
  -- The structure of vlu_ldap.c beside the database and the clock.
  abbrev pub LdapWorld : Type 0
  LdapWorld = World m (VluLdap d)

  abbrev pub slot : Slot LdapWorld (VluLdap d)
  slot = record { read = λ w. w.rest; write = λ v w. record w { rest = v } }

  abbrev pub clock : LdapWorld → Option ℕ
  clock w = w.clock

  pub slot-IsSlot : IsSlot slot clock
  slot-IsSlot = record { read_write = λ v w. refl; clock_write = λ v w. refl }

module _ (d : Directory) (m : Mdb) (y : Yasl) (config : Config) (lconfig : LdapConfig) where
  abbrev vlu : VluBackend (World m (VluLdap d)) (Unit {0})
  vlu = ldap_backend d (slot d m) (clock d m) y config lconfig

  vlu-KeepsReplies : KeepsReplies vlu
  unfolding ldap_backend null_vlu put_ldap ldap_functions put_back
  vlu-KeepsReplies = record {
    search_keeps = λ h r w. (refl, refl);
    group_search_keeps = λ h r w. (refl, refl);
    close_keeps = λ h w. refl;
  }

  -- At most one reply within both intervals, with the lookup in LDAP and the database in LMDB: when a
  -- run at time `t` has come to send a reply, and has stored it, a later run for the same recipient, in
  -- the database that the first one left, does not come to send one to any sender with the same
  -- canonical form, whatever the directory answers, while less than the interval of the users and than
  -- that of the groups has passed. Both clocks can be read, and the later run can begin to
  -- read the database: where either fails there the code takes no reply for recent, and sends again.
  pub once_per_interval-ldap :
      (s : IsStore m) (o : Opening) (rcpt : Bytes) (first second : Call)
      (sender sender' canon : Bytes) (w w' u u' : World m (VluLdap d)) (t now : ℕ) {c c' : ℕ}
      {mail mail' : Mail}
      → check_from y sender ≡ some canon
      → check_from y sender' ≡ some canon
      → w.clock ≡ some t
      → look_up y config first (lmdb_backend y m o) vlu tt rcpt (some sender) w
        ≡ exited c (some mail) w'
      → (lmdb_vdb_store_reply y m rcpt canon (some t) w.env).0 ≡ ok
      → CanRead m w'.env
      → u.env ≡ w'.env
      → u.clock ≡ some now
      → now < t + config.core_interval
      → now < t + lconfig.core_group_interval
      → look_up y config second (lmdb_backend y m o) vlu tt rcpt (some sender') u
        ≢ exited c' (some mail') u'
  once_per_interval-ldap s o rcpt first second sender sender' canon w w' u u' t now a a' at_t run
        stored readable same later h k =
      once_per_interval y m s o config vlu vlu-KeepsReplies tt rcpt first second sender sender'
        canon w w' u u' t now a a' at_t run stored readable same later
        (λ v f.
          interval-Found d (slot d m) (clock d m) (slot-IsSlot d m) y config lconfig
            (lmdb_backend y m o) second rcpt u v t now f h k)
