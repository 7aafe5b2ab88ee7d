-- ===== src/Main/Ldap/Default.antt =====
-- The lookup and the database that simvacation.conf names: LDAP and Redis.
use mathlib.Core.Path.{subst}
use simvacation.Common.{ℕ, ◌+◌, ◌^◌, ◌<◌, ◌≡◌, ◌≢◌, refl, ap, Option, some, Bytes}
use simvacation.Yasl.{Yasl}
use simvacation.Config.{Config, LdapConfig}
use simvacation.Sender.{check_from}
use simvacation.Vdb.{VdbBackend, with_redis}
use simvacation.Vdb.Urcl.{Urcl, IsRedis, IsSteady}
use simvacation.Vdb.Redis.{RedisConfig, VdbRedis}
use simvacation.Vlu.{VluBackend, null_vlu, put_ldap}
use simvacation.Vlu.Directory.{Directory}
use simvacation.Vlu.Ldap.{VluLdap, ldap_vlu_interval}
use simvacation.Vlu.Ldap.Table.{Slot, put_back, ldap_functions}
use simvacation.Reply.{Mail}
use simvacation.Main.{Call, exited, look_up}
use simvacation.Main.Memory.{KeepsMemory}
use simvacation.Main.Redis.{RedisWorld, redis_functions, redis_backend}
use simvacation.Main.Redis.Keeps.{redis-Remembers}
use simvacation.Main.Redis.Week.{once_per_interval-redis}
use simvacation.Main.Ldap.{IsSlot, ldap_backend, interval-Found}

module _ (d : Directory) (u : Urcl) where
  -- The structure of vlu_ldap.c beside the server and the clock.
  abbrev pub Outside : Type 0
  Outside = RedisWorld u (VluLdap d)

  abbrev pub slot : Slot Outside (VluLdap d)
  slot = record { read = λ w. w.rest; write = λ v w. record w { rest = v } }

  abbrev pub clock : Outside → Option ℕ
  clock w = w.clock

  slot-IsSlot : IsSlot slot clock
  slot-IsSlot = record { read_write = λ v w. refl; clock_write = λ v w. refl }

module _ (d : Directory) (u : Urcl) (y : Yasl) (config : Config) (lconfig : LdapConfig)
    (r : IsRedis u) (steady : IsSteady u r) (blank : VdbRedis u) (rconfig : RedisConfig) where
  abbrev vlu : VluBackend (RedisWorld u (VluLdap d)) (Unit {0})
  vlu = ldap_backend d (slot d u) (clock d u) y config lconfig

  abbrev vdb : VdbBackend (RedisWorld u (VluLdap d)) (VdbRedis u)
  vdb = redis_backend y u blank rconfig

  vlu-KeepsMemory : KeepsMemory (redis-Remembers y u r steady blank rconfig) vlu
  unfolding ldap_backend null_vlu put_ldap ldap_functions put_back
  vlu-KeepsMemory = record {
    search_clock = λ h rcpt w. refl;
    group_search_clock = λ h rcpt w. refl;
    search_holds = λ t rcpt canon name h w k. k;
    group_search_holds = λ t rcpt canon name h w k. k;
    close_left = λ t rcpt canon h w k. k;
  }

  interval_begun :
      (rcpt : Bytes) (searched begun : RedisWorld u (VluLdap d)) (h : VdbRedis u)
      → vdb.init rcpt searched ≡ (some h, begun)
      → vlu.interval tt rcpt searched ≡ vlu.interval tt rcpt begun
  unfolding ldap_backend null_vlu put_ldap ldap_functions ldap_vlu_interval redis_backend with_redis
      redis_functions
  interval_begun rcpt searched begun h opened = ap (λ p. p.1.rest.interval) opened

  -- At most one reply within both intervals and a week, with the lookup and the database that the
  -- configuration of the build names, LDAP and Redis: when a run at time `t` has come to send a reply,
  -- whether that worked or not, a later run for the same recipient does not come to send one to any
  -- sender with the same canonical form, whatever the directory answers, while less than a week has
  -- passed on the server that the first run left, and less than the interval of the users and than
  -- that of the groups by the clock. Connections to the server do not fail, and the time has at most
  -- 15 digits.
  pub once_per_interval-default :
      (rcpt : Bytes) (first second : Call) (sender sender' canon : Bytes)
      (w w' v v' : RedisWorld u (VluLdap d)) (t now n : ℕ) {c c' : ℕ} {mail mail' : Mail}
      → t < 10 ^ 15
      → check_from y sender ≡ some canon
      → check_from y sender' ≡ some canon
      → w.clock ≡ some t
      → look_up y config first vdb vlu tt rcpt (some sender) w ≡ exited c (some mail) w'
      → n < 604800
      → v.server ≡ r.later n w'.server
      → v.clock ≡ some now
      → now < t + config.core_interval
      → now < t + lconfig.core_group_interval
      → look_up y config second vdb vlu tt rcpt (some sender') v ≢ exited c' (some mail') v'
  once_per_interval-default rcpt first second sender sender' canon w w' v v' t now n fits a a' at_t
        run week later at_now user group =
      once_per_interval-redis y u r steady blank rconfig config vlu vlu-KeepsMemory tt rcpt first
        second sender sender' canon w w' v v' t now n fits a a' at_t run week later at_now
        (λ searched begun h found opened.
          subst (λ i. now < t + i) (interval_begun rcpt searched begun h opened)
            (interval-Found d (slot d u) (clock d u) (slot-IsSlot d u) y config lconfig vdb second
              rcpt v searched t now found user group))
