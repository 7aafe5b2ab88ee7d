-- ===== src/Vdb/Backends.antt =====
-- What every database that `vdb_backend` returns has in common.
use simvacation.Common.{
  ◌≡◌, refl, Bool, true, false, Option, none, some, [], Bytes, codes, if◌then◌else◌,
}
use simvacation.CString.{strcasecmp}
use simvacation.Vdb.{
  VdbBackend, RedisFunctions, LmdbFunctions, vdb_backend, null_backend, with_redis, with_lmdb,
  built,
}

module _ {W V : Type 0} where
  -- The database has no users to list, and cleaning up after one does nothing.
  abbrev pub KeepsNoNames : VdbBackend W V → Type 0
  KeepsNoNames b =
      ((v : V) (w : W) → b.get_names v w ≡ [])
      × ((v : V) (user : Bytes) (w : W) → b.clean v user w ≡ w)

  abbrev pub Every : (VdbBackend W V → Type 0) → Option (VdbBackend W V) → Type 0
  Every P none = Unit
  Every P (some b) = P b

  built-redis :
      (blank : V) (f : Option (RedisFunctions W V))
      → Every KeepsNoNames (built (with_redis (null_backend blank)) f)
  unfolding built with_redis null_backend
  built-redis blank none = tt
  built-redis blank (some f) = (λ v w. refl, λ v user w. refl)

  built-lmdb :
      (blank : V) (f : Option (LmdbFunctions W V))
      → Every KeepsNoNames (built (with_lmdb (null_backend blank)) f)
  unfolding built with_lmdb null_backend
  built-lmdb blank none = tt
  built-lmdb blank (some f) = (λ v w. refl, λ v user w. refl)

  Every-if :
      (P : VdbBackend W V → Type 0) (b : Bool) (x y : Option (VdbBackend W V))
      → Every P x
      → Every P y
      → Every P (if b then x else y)
  Every-if P true x y h k = h
  Every-if P false x y h k = k

  -- Whatever the configuration names and the build has, the database that is returned lists no
  -- users and its `clean` changes nothing.
  pub vdb_backend-KeepsNoNames :
      (blank : V) (urcl : Option (RedisFunctions W V)) (lmdb : Option (LmdbFunctions W V))
      (provider : Bytes)
      → Every KeepsNoNames (vdb_backend blank urcl lmdb provider)
  unfolding vdb_backend
  vdb_backend-KeepsNoNames blank urcl lmdb provider =
      Every-if KeepsNoNames (strcasecmp provider (codes "redis")) _ _ (built-redis blank urcl) (
        Every-if KeepsNoNames (strcasecmp provider (codes "lmdb")) _ _ (built-lmdb blank lmdb) (
          Every-if KeepsNoNames (strcasecmp provider (codes "null")) (some (null_backend blank))
            none (λ v w. refl, λ v user w. refl) tt))
