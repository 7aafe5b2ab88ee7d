-- ===== src/Main/Redis/Week.antt =====
-- Two runs over one Redis server: at most one reply within the interval and a week.
use simvacation.Common.{ℕ, ◌+◌, ◌^◌, ◌<◌, ◌≡◌, ◌≢◌, some, Bytes}
use simvacation.Yasl.{Yasl}
use simvacation.Vdb.{VdbBackend}
use simvacation.Vdb.Urcl.{Urcl, IsRedis, IsSteady}
use simvacation.Vdb.Redis.{RedisConfig, VdbRedis}
use simvacation.Config.{Config}
use simvacation.Sender.{check_from}
use simvacation.Vlu.{VluBackend}
use simvacation.Reply.{Mail}
use simvacation.Main.{Call, exited, look_up}
use simvacation.Main.Checks.{Found}
use simvacation.Main.Memory.{KeepsMemory, once_per_interval-Remembers}
use simvacation.Main.Redis.{RedisWorld, redis_backend}
use simvacation.Main.Redis.Keeps.{redis-Remembers}

module _ {X : Type 0} (y : Yasl) (u : Urcl) (r : IsRedis u) (steady : IsSteady u r)
    (blank : VdbRedis u) (config : RedisConfig) where
  abbrev vdb : VdbBackend (RedisWorld u X) (VdbRedis u)
  vdb = redis_backend y u blank config

  -- At most one reply within the interval and a week, over a Redis server: when a run at time `t` has
  -- come to send a reply, whether that worked or not, a later run for the same recipient does not
  -- come to send one to any sender with the same canonical form, while less than a week has passed on
  -- the server that the first run left, and less than the interval, that the second lookup gives
  -- where it finds the recipient, by the clock. Connections do not fail, the time has at most 15
  -- digits, and the lookup leaves the server and the clock alone.
  pub once_per_interval-redis :
      {L : Type 0} (conf : Config) (vlu : VluBackend (RedisWorld u X) L)
      → KeepsMemory (redis-Remembers y u r steady blank config) vlu
      → (vluh : L) (rcpt : Bytes) (first second : Call) (sender sender' canon : Bytes)
        (w w' v v' : RedisWorld u X) (t now n : ℕ) {c c' : ℕ} {mail mail' : Mail}
      → t < 10 ^ 15
      → check_from y sender ≡ some canon
      → check_from y sender' ≡ some canon
      → w.clock ≡ some t
      → look_up y conf first vdb vlu vluh rcpt (some sender) w ≡ exited c (some mail) w'
      → n < 604800
      → v.server ≡ r.later n w'.server
      → v.clock ≡ some now
      → ((searched begun : RedisWorld u X) (h : VdbRedis u)
          → Found y conf second vdb vlu vluh rcpt v searched
          → vdb.init rcpt searched ≡ (some h, begun)
          → now < t + vlu.interval vluh rcpt begun)
      → look_up y conf second vdb vlu vluh rcpt (some sender') v ≢ exited c' (some mail') v'
  once_per_interval-redis conf vlu keeps vluh rcpt first second sender sender' canon w w' v v' t now
        n fits a a' at_t run week later clock soon =
      once_per_interval-Remembers y conf vdb (redis-Remembers y u r steady blank config) vlu keeps
        vluh rcpt first second sender sender' canon w w' v v' t now fits a a' at_t run
        (n, week, later) clock soon
