-- ===== src/Vdb/Redis.antt =====
-- vdb_redis.c: the vacation database in Redis. The clock is an argument: `none` is the failure of
-- `time`.
pub mod Recent
use simvacation.Common.{
  ℕ, suc, ◌+◌, Bool, true, false, Option, none, some, ◌++◌, ltb, if◌then◌else◌, Bytes, codes, ℤ,
  pos, negsuc,
}
use simvacation.CString.Number.{snprintf_decimal, strtoll}
use simvacation.CString.Print.{hex}
use simvacation.Yasl.{Yasl}
use simvacation.Rabin.{rabin_fingerprint}
use simvacation.Vdb.{VacResult, ok, tempfail, Status, status_ok, recent}
use simvacation.Vdb.Urcl.{
  Urcl, Command, get_command, del_command, set_command, expire_command, RedisReply, string_reply,
  other_reply,
}

-- `redis.host` and `redis.port`; `none` where `ucl_object_tostring_safe` or `ucl_object_toint_safe`
-- fails.
pub record RedisConfig : Type 0 where
  pub redis_host : Option Bytes
  pub redis_port : Option ℤ

-- `VDB`
pub record VdbRedis (u : Urcl) : Type 0 where
  pub redis : u.Handle
  pub rcpt : Bytes

unfoldable pub redis_vdb_key : Yasl → Bytes → Bytes → Bytes
redis_vdb_key y rcpt from =
    y.yaslcatprintf (codes "simvacation:user:")
      (rcpt ++ (codes ":" ++ hex (rabin_fingerprint from)))

-- `now < last + interval`, where the sum fits a time_t: what the code does where it overflows is not
-- defined, and it is not cut here.
pub before : ℕ → ℤ → ℕ → Bool
before now (pos last) interval = ltb now (last + interval)
before now (negsuc last) interval = ltb (suc (now + last)) interval

module _ (y : Yasl) (u : Urcl) where
  -- A structure whose connection could not be made is only freed.
  unfoldable pub connected : Bytes → Option u.Handle × u.Server → Option (VdbRedis u) × u.Server
  connected rcpt (none, s) = (none, s)
  connected rcpt (some redis, s) = (some (record { redis = redis; rcpt = rcpt }), s)

  unfoldable pub connect_to :
      Bool → Option Bytes → Option ℤ → Bytes → u.Server → Option (VdbRedis u) × u.Server
  unfolding connected
  connect_to vdb none port rcpt s = (none, s)
  connect_to vdb (some host) none rcpt s = (none, s)
  connect_to false (some host) (some port) rcpt s = (none, s)
  connect_to true (some host) (some port) rcpt s = connected rcpt (u.urcl_connect host port s)

  -- `vdb` is the answer of `calloc`.
  unfoldable pub redis_vdb_init :
      Bool → RedisConfig → Bytes → u.Server → Option (VdbRedis u) × u.Server
  unfolding connect_to
  redis_vdb_init vdb config rcpt s = connect_to vdb config.redis_host config.redis_port rcpt s

  unfoldable pub redis_vdb_close : Option (VdbRedis u) → u.Server → u.Server
  redis_vdb_close none s = s
  redis_vdb_close (some vdb) s = u.urcl_free vdb.redis s

  compare_times : VdbRedis u → Bytes → ℤ → ℕ → Option ℕ → u.Server → Status × u.Server
  unfolding before
  compare_times vdb key last interval none s = (status_ok, s)
  compare_times vdb key last interval (some now) s =
      if before now last interval
      then (recent, s)
      else (status_ok, (u.urcl_command vdb.redis (del_command key) s).1)

  check_reply : VdbRedis u → Bytes → ℕ → Option ℕ → Option RedisReply × u.Server → Status × u.Server
  unfolding compare_times
  check_reply vdb key interval now (none, s) = (status_ok, s)
  check_reply vdb key interval now (some (other_reply type), s) = (status_ok, s)
  check_reply vdb key interval now (some (string_reply str), s) =
      compare_times vdb key (strtoll str) interval now s

  unfoldable pub redis_vdb_recent : VdbRedis u → Bytes → ℕ → Option ℕ → u.Server → Status × u.Server
  unfolding check_reply
  redis_vdb_recent vdb from interval now s =
      let key = redis_vdb_key y vdb.rcpt from in
      check_reply vdb key interval now (u.urcl_command vdb.redis (get_command key) s)

  -- The answers of the two commands are not looked at.
  unfoldable pub redis_vdb_store_reply :
      VdbRedis u → Bytes → Option ℕ → u.Server → VacResult × u.Server
  redis_vdb_store_reply vdb from none s = (tempfail, s)
  redis_vdb_store_reply vdb from (some now) s =
      let key = redis_vdb_key y vdb.rcpt from in
      let s' = (u.urcl_command vdb.redis (set_command key (snprintf_decimal 16 now)) s).1 in
      (ok, (u.urcl_command vdb.redis (expire_command key 604800) s').1)
