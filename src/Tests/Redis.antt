-- ===== src/Tests/Redis.antt =====
-- A server that keeps what it is given until it expires, to run vdb_redis.c with.
use simvacation.Common.{
  pos, ℕ, ◌+◌, ◌≡◌, ◌≢◌, refl, Option, none, some, Bytes, codes, ltb, if◌then◌else◌, arith, same,
  same_self, same_ne,
}
use simvacation.CString.{skip_spaces, isspace}
use simvacation.CString.Number.{strtoll}
use simvacation.Vdb.{status_ok, recent}
use simvacation.Vdb.Urcl.{
  Urcl, Command, get_command, del_command, set_command, expire_command, RedisReply, string_reply,
  other_reply, IsRedis,
}
use simvacation.Vdb.Redis.{VdbRedis, redis_vdb_key, redis_vdb_recent, redis_vdb_store_reply}
use simvacation.Vdb.Redis.Recent.{recent-redis_vdb_store_reply, recent_deletes_outdated}
use simvacation.Tests.Model.{model}

-- What each key holds, and the seconds that are left.
abbrev pub Keys : Type 0
Keys = (Bytes → Option Bytes) × (Bytes → Option ℕ)

-- One key changed.
abbrev pub set_at : {A : Type 0} → Bytes → A → (Bytes → A) → Bytes → A
set_at k a f j = if same k j then a else f j

abbrev reply_of : Option Bytes → Option RedisReply
reply_of none = some (other_reply 4)
reply_of (some v) = some (string_reply v)

abbrev run : Command → Keys → Option RedisReply × Keys
run (get_command k) s = (reply_of (s.0 k), s)
run (set_command k v) s = (some (other_reply 5), (set_at k (some v) s.0, set_at k none s.1))
run (expire_command k n) s = (some (other_reply 3), (s.0, set_at k (some n) s.1))
run (del_command k) s = (some (other_reply 3), (set_at k none s.0, s.1))

abbrev pub urcl : Urcl
urcl = record {
  Server = Keys;
  Handle = Unit;
  urcl_connect = λ host port s. (some tt, s);
  urcl_free = λ h s. s;
  urcl_command = λ h c s. run c s;
}

abbrev aged : ℕ → Option ℕ → Option Bytes → Option Bytes
aged n none o = o
aged n (some l) o = if ltb n l then o else none

pub set_at-same : {A : Type 0} (k : Bytes) (a : A) (f : Bytes → A) → set_at k a f k ≡ a
set_at-same k a f = rw (same_self k) refl

pub set_at_ne : {A : Type 0} (k j : Bytes) (a : A) (f : Bytes → A) → k ≢ j → set_at k a f j ≡ f j
set_at_ne k j a f ne = rw (same_ne k j ne) refl

pub missing_law : (s : Keys) (k v : Bytes) → s.0 k ≡ none → reply_of (s.0 k) ≢ some (string_reply v)
missing_law s k v e = rw e (λ h. cc)

abbrev pub redis : IsRedis urcl
redis = record {
  Up = λ h s. Unit;
  look = λ s. s.0;
  ttl = λ s. s.1;
  later = λ n s. (λ k. aged n (s.1 k) (s.0 k), s.1);
  up_command = λ h c s up. tt;
  get_found = λ h s k v up e. rw e refl;
  get_missing = λ h s k v e. missing_law s k v e;
  look_get = λ h s k j. refl;
  look_set = λ h s k v up. set_at-same k (some v) s.0;
  look_set_ne = λ h s k v j ne. set_at_ne k j (some v) s.0 ne;
  look_expire = λ h s k j n pos. refl;
  ttl_expire = λ h s k v n up e. set_at-same k (some n) s.1;
  look_del = λ h s k up. set_at-same k none s.0;
  look_later = λ n l s k e. rw e refl;
}

abbrev pub empty_server : Keys
empty_server = (λ k. none, λ k. none)

abbrev alice : VdbRedis urcl
alice = record { redis = tt; rcpt = codes "alice" }

abbrev bob : Bytes
bob = codes "bob@ex.edu"

recent-redis_vdb_store_reply_example :
    (redis_vdb_recent model urcl alice bob 259200
      (some 1050)
      (redis.later 50 (redis_vdb_store_reply model urcl alice bob (some 1000) empty_server).1)).0
    ≡ recent
recent-redis_vdb_store_reply_example =
    recent-redis_vdb_store_reply model urcl redis alice bob 1000 50 259200 1050 empty_server
      (omega arith) tt tt

abbrev outdated : Keys
outdated =
    (set_at (redis_vdb_key model (codes "alice") bob) (some (codes "1000")) (λ k. none), λ k. none)

thousand : strtoll (codes "1000") ≡ pos 1000
unfolding strtoll skip_spaces isspace
thousand = refl

recent_deletes_outdated_example :
    ((redis_vdb_recent model urcl alice bob 100 (some 2000) outdated).0
      ≡ (if ltb 2000 (1000 + 100) then recent else status_ok))
    × (redis.look
          (redis_vdb_recent model urcl alice bob 100 (some 2000) outdated).1
          (redis_vdb_key model (codes "alice") bob)
        ≡ (if ltb 2000 (1000 + 100) then some (codes "1000") else none))
recent_deletes_outdated_example =
    recent_deletes_outdated model urcl redis alice bob (codes "1000") 1000 100 2000 outdated tt
      (set_at-same (redis_vdb_key model (codes "alice") bob) (some (codes "1000")) (λ k. none))
      thousand (omega arith)
