-- ===== src/Tests/Week.antt =====
-- Two runs of the program over a Redis server.
use simvacation.Common.{ℕ, ◌≡◌, ◌≢◌, refl, some, [], codes, pos, arith}
use simvacation.CString.{
  strncasecmp, strcasecmp, strchr, strrchr, strstr, memcmp, tolower, isspace, skip_spaces,
  fgets_line, fgets_rest, fill,
}
use simvacation.CString.Number.{strtoll, decimal}
use simvacation.CString.Print.{hex, shown}
use simvacation.Sender.{check_from}
use simvacation.Substring.{is_substring}
use simvacation.Rabin.{rabin_fingerprint}
use simvacation.Headers.{readheaders, check_header, append_header}
use simvacation.Vdb.{VdbBackend, with_redis}
use simvacation.Vdb.Urcl.{IsSteady}
use simvacation.Vdb.Redis.{
  RedisConfig, VdbRedis, connected, connect_to, redis_vdb_init, redis_vdb_close, redis_vdb_key,
  redis_vdb_recent, redis_vdb_store_reply,
}
use simvacation.Vlu.{VluBackend, null_vlu}
use simvacation.Reply.{send_message, pretty_sender}
use simvacation.Main.{exited, look_up}
use simvacation.Main.Memory.{KeepsMemory}
use simvacation.Main.Redis.{RedisWorld, redis_functions, redis_backend}
use simvacation.Main.Redis.Keeps.{redis-Remembers}
use simvacation.Main.Redis.Week.{once_per_interval-redis}
use simvacation.Tests.Model.{model, split_onto}
use simvacation.Tests.Main.{settings, call, mail}
use simvacation.Tests.Redis.{urcl, redis, Keys, empty_server}

abbrev pub redis_settings : RedisConfig
redis_settings = record { redis_host = some (codes "127.0.0.1"); redis_port = some (pos 6379) }

abbrev Outside : Type 0
Outside = RedisWorld urcl (Unit {0})

abbrev at_time : Keys → ℕ → Outside
at_time s t = record { server = s; clock = some t; rest = tt }

abbrev pub handle : VdbRedis urcl
handle = record { redis = tt; rcpt = [] }

abbrev vdb : VdbBackend Outside (VdbRedis urcl)
vdb = redis_backend model urcl handle redis_settings

abbrev vlu : VluBackend Outside (Unit {0})
vlu = null_vlu (some tt) settings

pub steady : IsSteady urcl redis
steady = record {
  up_connect = λ host port s h e. tt;
  look_connect = λ host port s k. refl;
  look_free = λ h s k. refl;
  ttl_free = λ h s k. refl;
}

-- The server with the reply stored at 1000.
abbrev pub stored : Keys
stored =
    (redis_vdb_store_reply model urcl (record { redis = tt; rcpt = codes "al" })
      (codes "bob@ex.edu") (some 1000) empty_server).1

first_look_up :
    look_up model settings call vdb vlu tt
      (codes "al")
      (some (codes "bob@ex.edu"))
      (at_time empty_server 1000)
    ≡ exited 0 (some mail) (at_time stored 1000)
unfolding look_up readheaders check_header append_header is_substring strncasecmp strchr strrchr
    strstr tolower isspace skip_spaces fgets_line fgets_rest fill check_from memcmp strcasecmp
    connected connect_to redis_vdb_init redis_vdb_close redis_vdb_key redis_vdb_recent
    redis_vdb_store_reply rabin_fingerprint hex shown decimal strtoll null_vlu redis_backend
    with_redis redis_functions send_message pretty_sender split_onto
first_look_up = refl

bob_accepted : check_from model (codes "bob@ex.edu") ≡ some (codes "bob@ex.edu")
unfolding check_from strncasecmp strchr strrchr strstr memcmp tolower
bob_accepted = refl

forwarded_accepted :
    check_from model (codes "SRS0=gf=fp=ex.edu=bob@fw.edu") ≡ some (codes "bob@ex.edu")
unfolding check_from strncasecmp strchr strrchr strstr memcmp tolower
forwarded_accepted = refl

vlu-KeepsMemory : KeepsMemory (redis-Remembers model urcl redis steady handle redis_settings) vlu
unfolding null_vlu
vlu-KeepsMemory = record {
  search_clock = λ h rcpt w. refl;
  group_search_clock = λ h rcpt w. refl;
  search_holds = λ t rcpt canon name h w k. k;
  group_search_holds = λ t rcpt canon name h w k. k;
  close_left = λ t rcpt canon h w k. k;
}

-- A forwarder has rewritten the address, and 50 seconds have passed.
once_per_interval-redis_example :
    look_up model settings call vdb vlu tt
      (codes "al")
      (some (codes "SRS0=gf=fp=ex.edu=bob@fw.edu"))
      (at_time (redis.later 50 stored) 1050)
    ≢ exited 0 (some mail) (at_time (redis.later 50 stored) 1050)
unfolding null_vlu
once_per_interval-redis_example =
    once_per_interval-redis model urcl redis steady handle redis_settings settings vlu
      vlu-KeepsMemory tt (codes "al") call call (codes "bob@ex.edu")
      (codes "SRS0=gf=fp=ex.edu=bob@fw.edu") (codes "bob@ex.edu") (at_time empty_server 1000)
      (at_time stored 1000) (at_time (redis.later 50 stored) 1050)
      (at_time (redis.later 50 stored) 1050) 1000 1050 50 (omega arith) bob_accepted
      forwarded_accepted refl first_look_up (omega arith) refl refl
      (λ searched begun h found opened. omega arith)
