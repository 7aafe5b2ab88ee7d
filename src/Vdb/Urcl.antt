-- ===== src/Vdb/Urcl.antt =====
-- Redis (liburcl) as vdb_redis.c calls it: a parameter of the model, with the laws of the server's
-- documentation that the theorems rely on.
use simvacation.Common.{ℕ, ◌<◌, ◌≡◌, ◌≢◌, Option, none, some, Bytes, ltb, if◌then◌else◌, ℤ}

-- The commands, with their arguments in place of each `%s`.
pub data Command : Type 0 where
  get_command del_command : Bytes → Command
  set_command : Bytes → Bytes → Command
  expire_command : Bytes → ℕ → Command

-- A `redisReply`: `REDIS_REPLY_STRING`, or one of another type.
pub data RedisReply : Type 0 where
  string_reply : Bytes → RedisReply
  other_reply : ℕ → RedisReply

pub record Urcl : Type 1 where
  pub Server : Type 0
  pub Handle : Type 0
  pub urcl_connect : Bytes → ℤ → Server → Option Handle × Server
  pub urcl_free : Handle → Server → Server
  -- `none` for `NULL`
  pub urcl_command : Handle → Command → Server → Option RedisReply × Server

-- What the server promises to a connection that works, through `look` and `ttl`, the value of a key
-- and the seconds after which it expires, and `later`, the server some seconds later.
pub record IsRedis (u : Urcl) : Type 1 where
  pub Up : u.Handle → u.Server → Type 0
  pub look : u.Server → Bytes → Option Bytes
  pub ttl : u.Server → Bytes → Option ℕ
  pub later : ℕ → u.Server → u.Server
  pub up_command :
      (h : u.Handle) (c : Command) (s : u.Server) → Up h s → Up h (u.urcl_command h c s).1
  pub get_found :
      (h : u.Handle) (s : u.Server) (k v : Bytes)
      → Up h s
      → look s k ≡ some v
      → (u.urcl_command h (get_command k) s).0 ≡ some (string_reply v)
  pub get_missing :
      (h : u.Handle) (s : u.Server) (k v : Bytes)
      → look s k ≡ none
      → (u.urcl_command h (get_command k) s).0 ≢ some (string_reply v)
  pub look_get :
      (h : u.Handle) (s : u.Server) (k j : Bytes)
      → look (u.urcl_command h (get_command k) s).1 j ≡ look s j
  pub look_set :
      (h : u.Handle) (s : u.Server) (k v : Bytes)
      → Up h s
      → look (u.urcl_command h (set_command k v) s).1 k ≡ some v
  pub look_set_ne :
      (h : u.Handle) (s : u.Server) (k v j : Bytes)
      → k ≢ j
      → look (u.urcl_command h (set_command k v) s).1 j ≡ look s j
  pub look_expire :
      (h : u.Handle) (s : u.Server) (k j : Bytes) (n : ℕ)
      → 0 < n
      → look (u.urcl_command h (expire_command k n) s).1 j ≡ look s j
  pub ttl_expire :
      (h : u.Handle) (s : u.Server) (k v : Bytes) (n : ℕ)
      → Up h s
      → look s k ≡ some v
      → ttl (u.urcl_command h (expire_command k n) s).1 k ≡ some n
  pub look_del :
      (h : u.Handle) (s : u.Server) (k : Bytes)
      → Up h s
      → look (u.urcl_command h (del_command k) s).1 k ≡ none
  -- A value goes when its seconds are over.
  pub look_later :
      (n l : ℕ) (s : u.Server) (k : Bytes)
      → ttl s k ≡ some l
      → look (later n s) k ≡ (if ltb n l then look s k else none)

-- Connections do not fail, and to make or to end one changes no key.
pub record IsSteady (u : Urcl) (r : IsRedis u) : Type 0 where
  pub up_connect :
      (host : Bytes) (port : ℤ) (s : u.Server) (h : u.Handle)
      → (u.urcl_connect host port s).0 ≡ some h
      → r.Up h (u.urcl_connect host port s).1
  pub look_connect :
      (host : Bytes) (port : ℤ) (s : u.Server) (k : Bytes)
      → r.look (u.urcl_connect host port s).1 k ≡ r.look s k
  pub look_free :
      (h : u.Handle) (s : u.Server) (k : Bytes) → r.look (u.urcl_free h s) k ≡ r.look s k
  pub ttl_free : (h : u.Handle) (s : u.Server) (k : Bytes) → r.ttl (u.urcl_free h s) k ≡ r.ttl s k
