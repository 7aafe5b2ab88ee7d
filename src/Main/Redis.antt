-- ===== src/Main/Redis.antt =====
-- vdb_redis.c as the functions of a database, over a state that holds the server.
pub mod Keeps
pub mod Week
use simvacation.Common.{
  ℕ, ◌+◌, ◌^◌, ◌<◌, ◌≡◌, ◌≢◌, refl, sym, ap, ◌∙◌, Bool, true, Option, none, some, Bytes, lt→ltb,
  if◌then◌else◌, ℤ,
}
use mathlib.Core.Path.{subst}
use simvacation.CString.Number.{snprintf_decimal}
use simvacation.Yasl.{Yasl}
use simvacation.Vdb.{status_ok, recent, VdbBackend, RedisFunctions, with_redis, null_backend}
use simvacation.Vdb.Urcl.{Urcl, IsRedis, IsSteady}
use simvacation.Vdb.Redis.{
  RedisConfig, VdbRedis, redis_vdb_key, connected, connect_to, redis_vdb_init, redis_vdb_close,
  redis_vdb_recent, redis_vdb_store_reply,
}
use simvacation.Vdb.Redis.Recent.{
  verdict, recent-verdict, recent-Up, verdict-decimal, look-stored, ttl-stored,
}
use simvacation.Config.{Config}
use simvacation.Sender.{check_from}
use simvacation.Vlu.{VluBackend}
use simvacation.Reply.{Mail}
use simvacation.Main.{Call, exited, look_up}
use simvacation.Main.Checks.{Found}
use simvacation.Main.Memory.{Remembers, KeepsMemory, once_per_interval-Remembers}

-- The state outside: the server, the clock that a run reads, and the rest.
pub record RedisWorld (u : Urcl) (X : Type 0) : Type 0 where
  pub server : u.Server
  pub clock : Option ℕ
  pub rest : X

-- A call on the server, as one on the state outside.
abbrev on_server :
    {u : Urcl} {X A : Type 0} → (u.Server → A × u.Server) → RedisWorld u X → A × RedisWorld u X
on_server f w = let (a, s) = f w.server in (a, record w { server = s })

unfoldable pub redis_functions :
    {X : Type 0}
    → Yasl
    → (u : Urcl) → Bool
    → RedisConfig
    → RedisFunctions (RedisWorld u X) (VdbRedis u)
redis_functions y u vdb config = record {
  redis_init = λ rcpt. on_server (redis_vdb_init y u vdb config rcpt);
  redis_close = λ v w. record w { server = redis_vdb_close y u v w.server };
  redis_recent = λ v from interval w. on_server (redis_vdb_recent y u v from interval w.clock) w;
  redis_store_reply = λ v from w. on_server (redis_vdb_store_reply y u v from w.clock) w;
}

-- `blank` is not used by these functions.
unfoldable pub redis_backend :
    {X : Type 0}
    → Yasl
    → (u : Urcl) → VdbRedis u
    → RedisConfig
    → VdbBackend (RedisWorld u X) (VdbRedis u)
unfolding with_redis redis_functions
redis_backend y u blank config = with_redis (null_backend blank) (redis_functions y u true config)
