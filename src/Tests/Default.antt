-- ===== src/Tests/Default.antt =====
-- Two runs with the lookup in LDAP and a Redis server.
use simvacation.Common.{ℕ, ◌≡◌, ◌≢◌, refl, some, codes, arith}
use simvacation.CString.{
  strncasecmp, strcasecmp, strchr, strrchr, strstr, memcmp, tolower, isspace, skip_spaces,
  fgets_line, fgets_rest, fill,
}
use simvacation.CString.Number.{strtoll, decimal}
use simvacation.CString.Print.{hex, shown}
use simvacation.Sender.{check_from}
use simvacation.Substring.{is_substring}
use simvacation.Rabin.{rabin_fingerprint}
use simvacation.Headers.{readheaders, check_header, append_header}
use simvacation.Vdb.{VdbBackend, with_redis}
use simvacation.Vdb.Redis.{
  VdbRedis, connected, connect_to, redis_vdb_init, redis_vdb_close, redis_vdb_key, redis_vdb_recent,
  redis_vdb_store_reply,
}
use simvacation.Vlu.{VluBackend, null_vlu, put_ldap}
use simvacation.Vlu.Window.{onvacation_at, value_true}
use simvacation.Vlu.Ldap.{
  VluLdap, ldap_vlu_onvacation, ldap_vlu_search, ldap_vlu_aliases, ldap_vlu_message,
  ldap_vlu_subject_prefix, ldap_vlu_interval, ldap_vlu_display_name,
}
use simvacation.Vlu.Ldap.Table.{put_back, ldap_functions}
use simvacation.Reply.{send_message, pretty_sender}
use simvacation.Main.{exited, look_up}
use simvacation.Main.Redis.{RedisWorld, redis_functions, redis_backend}
use simvacation.Main.Ldap.{ldap_backend}
use simvacation.Main.Ldap.Default.{slot, clock, once_per_interval-default}
use simvacation.Tests.Model.{model, split_onto}
use simvacation.Tests.Main.{call, bob_accepted, forwarded_accepted}
use simvacation.Tests.Directory.{directory, ldap_settings, bound}
use simvacation.Tests.Ldap.{settings}
use simvacation.Tests.Runs.{mail, away}
use simvacation.Tests.Redis.{urcl, redis, Keys, empty_server}
use simvacation.Tests.Week.{redis_settings, handle, steady, stored}

abbrev Outside : Type 0
Outside = RedisWorld urcl (VluLdap directory)

abbrev at_time : Keys → ℕ → VluLdap directory → Outside
at_time s t v = record { server = s; clock = some t; rest = v }

abbrev vdb : VdbBackend Outside (VdbRedis urcl)
vdb = redis_backend model urcl handle redis_settings

abbrev vlu : VluBackend Outside (Unit {0})
vlu =
    ldap_backend directory (slot directory urcl) (clock directory urcl) model settings ldap_settings

default_look_up :
    look_up model settings call vdb vlu tt
      (codes "al")
      (some (codes "bob@ex.edu"))
      (at_time empty_server 1000 bound)
    ≡ exited 0 (some mail) (at_time stored 1000 away)
unfolding look_up readheaders check_header append_header is_substring strncasecmp strchr strrchr
    strstr tolower isspace skip_spaces fgets_line fgets_rest fill check_from memcmp strcasecmp
    connected connect_to redis_vdb_init redis_vdb_close redis_vdb_key redis_vdb_recent
    redis_vdb_store_reply rabin_fingerprint hex shown decimal strtoll null_vlu put_ldap put_back
    ldap_functions ldap_backend ldap_vlu_search ldap_vlu_onvacation ldap_vlu_aliases
    ldap_vlu_message ldap_vlu_subject_prefix ldap_vlu_interval ldap_vlu_display_name onvacation_at
    value_true redis_backend with_redis redis_functions send_message pretty_sender split_onto
default_look_up = refl

once_per_interval-default_example :
    look_up model settings call vdb vlu tt
      (codes "al")
      (some (codes "SRS0=gf=fp=ex.edu=bob@fw.edu"))
      (at_time (redis.later 50 stored) 1050 bound)
    ≢ exited 0 (some mail) (at_time (redis.later 50 stored) 1050 away)
once_per_interval-default_example =
    once_per_interval-default directory urcl model settings ldap_settings redis steady handle
      redis_settings (codes "al") call call (codes "bob@ex.edu")
      (codes "SRS0=gf=fp=ex.edu=bob@fw.edu") (codes "bob@ex.edu") (at_time empty_server 1000 bound)
      (at_time stored 1000 away) (at_time (redis.later 50 stored) 1050 bound)
      (at_time (redis.later 50 stored) 1050 away) 1000 1050 50 (omega arith) bob_accepted
      forwarded_accepted refl default_look_up (omega arith) refl refl (omega arith) (omega arith)
