-- ===== src/Vdb.antt =====
-- vdb.c and vdb.h: the table of the functions of a vacation database, and the database that keeps
-- nothing. simvacation.h: the results that the parts of the program return.
pub mod Backends
pub mod Mdb
pub mod Lmdb
pub mod Urcl
pub mod Redis
use simvacation.Common.{
  ℕ, Bool, true, false, Option, none, some, List, [], Bytes, codes, if◌then◌else◌,
}
use simvacation.CString.{strcasecmp}

pub data VacResult : Type 0 where
  ok tempfail permfail : VacResult

-- `vdb_status`
pub data Status : Type 0 where
  status_ok recent : Status

-- `struct vdb_backend`, over the state `W` of the database and the handles `V`.
pub record VdbBackend (W V : Type 0) : Type 0 where
  pub init : Bytes → W → Option V × W
  pub close : Option V → W → W
  pub recent : V → Bytes → ℕ → W → Status × W
  pub store_reply : V → Bytes → W → VacResult × W
  pub get_names : V → W → List Bytes
  pub clean : V → Bytes → W → W
  pub gc : V → W → W

-- The functions that the two databases of the build bring: `vdb_backend` puts them over the others.
pub record RedisFunctions (W V : Type 0) : Type 0 where
  pub redis_init : Bytes → W → Option V × W
  pub redis_close : Option V → W → W
  pub redis_recent : V → Bytes → ℕ → W → Status × W
  pub redis_store_reply : V → Bytes → W → VacResult × W

pub record LmdbFunctions (W V : Type 0) : Type 0 where
  pub lmdb_init : Bytes → W → Option V × W
  pub lmdb_close : Option V → W → W
  pub lmdb_recent : V → Bytes → ℕ → W → Status × W
  pub lmdb_store_reply : V → Bytes → W → VacResult × W
  pub lmdb_gc : V → W → W

module _ {W V : Type 0} where
  -- `blank` is the allocated byte that `vdb_init` returns.
  pub vdb_init : V → Bytes → W → Option V × W
  vdb_init blank rcpt w = (some blank, w)

  pub vdb_close : Option V → W → W
  vdb_close v w = w

  pub vdb_recent : V → Bytes → ℕ → W → Status × W
  vdb_recent v from interval w = (status_ok, w)

  pub vdb_store_reply : V → Bytes → W → VacResult × W
  vdb_store_reply v from w = (ok, w)

  pub vdb_get_names : V → W → List Bytes
  vdb_get_names v w = []

  pub vdb_clean : V → Bytes → W → W
  vdb_clean v user w = w

  pub vdb_gc : V → W → W
  vdb_gc v w = w

  -- The null implementation of all functions.
  unfoldable pub null_backend : V → VdbBackend W V
  unfolding vdb_init vdb_close vdb_recent vdb_store_reply vdb_get_names vdb_clean vdb_gc
  null_backend blank = record {
    init = vdb_init blank;
    close = vdb_close;
    recent = vdb_recent;
    store_reply = vdb_store_reply;
    get_names = vdb_get_names;
    clean = vdb_clean;
    gc = vdb_gc;
  }

  unfoldable pub with_redis : VdbBackend W V → RedisFunctions W V → VdbBackend W V
  with_redis b r = record b {
    init = r.redis_init;
    close = r.redis_close;
    recent = r.redis_recent;
    store_reply = r.redis_store_reply;
  }

  unfoldable pub with_lmdb : VdbBackend W V → LmdbFunctions W V → VdbBackend W V
  with_lmdb b l = record b {
    init = l.lmdb_init;
    close = l.lmdb_close;
    recent = l.lmdb_recent;
    store_reply = l.lmdb_store_reply;
    gc = l.lmdb_gc;
  }

  -- A database that was disabled during compilation is `none`.
  built {ℓ} : {F : Type ℓ} → (F → VdbBackend W V) → Option F → Option (VdbBackend W V)
  built overlay none = none
  built overlay (some f) = some (overlay f)

  unfoldable pub vdb_backend :
      V → Option (RedisFunctions W V) → Option (LmdbFunctions W V) → Bytes → Option (VdbBackend W V)
  unfolding null_backend with_redis with_lmdb built
  vdb_backend blank urcl lmdb provider =
      if strcasecmp provider (codes "redis")
      then built (with_redis (null_backend blank)) urcl
      else if strcasecmp provider (codes "lmdb")
      then built (with_lmdb (null_backend blank)) lmdb
      else if strcasecmp provider (codes "null")
      then some (null_backend blank)
      else none
