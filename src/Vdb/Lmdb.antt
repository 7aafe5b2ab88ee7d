-- ===== src/Vdb/Lmdb.antt =====
-- vdb_lmdb.c: the vacation database in LMDB. A handle is the recipient's name; the environment
-- is passed on. The clock is an argument: `none` is the failure of `time`.
pub mod Recent
pub mod Key
pub mod Gc
pub mod Refines
use simvacation.Common.{
  ℕ, zero, suc, ◌+◌, ◌-◌, ◌/◌, ◌%◌, Bool, true, false, not, ◌&&◌, Option, none, some, List, [], ◌∷◌,
  ◌++◌, ◌==◌, ltb, if◌then◌else◌, Bytes, codes, length, take, pos,
}
use simvacation.CString.{memcmp}
use simvacation.CString.Print.{hex}
use simvacation.Yasl.{Yasl}
use simvacation.Rabin.{rabin_fingerprint}
use simvacation.Vdb.{VacResult, ok, tempfail, Status, status_ok, recent}
use simvacation.Vdb.Mdb.{Mdb, Datum}

-- What the calls of `lmdb_vdb_init` answer.
pub record Opening : Type 0 where
  pub path : Option Bytes
  pub allocated : Bool
  pub create_rc : ℕ
  pub set_assert_rc : ℕ
  pub set_mapsize_rc : ℕ
  pub open_rc : ℕ

unfoldable pub opened : Opening → Bytes → Option Bytes
opened o rcpt =
    if not o.allocated
    then none
    else if not (o.create_rc == 0)
    then none
    else if not (o.set_assert_rc == 0)
    then none
    else if not (o.set_mapsize_rc == 0)
    then none
    else if not (o.open_rc == 0)
    then none
    else some rcpt

unfoldable pub with_path : Option Bytes → Opening → Bytes → Option Bytes
with_path none o rcpt = none
with_path (some path) o rcpt = opened o rcpt

unfoldable pub lmdb_vdb_init : Opening → Bytes → Option Bytes
unfolding with_path opened
lmdb_vdb_init o rcpt = with_path o.path o rcpt

-- LMDB calls it where one of its assertions fails: the code that the program exits with.
lmdb_vdb_assert : Bytes → ℕ
lmdb_vdb_assert msg = 75

-- `mdb_env_close` leaves the data: they are in the file.
unfoldable pub lmdb_vdb_close : {W : Type 0} → Option Bytes → W → W
lmdb_vdb_close none w = w
lmdb_vdb_close (some rcpt) w = w

module _ (y : Yasl) where
  unfoldable pub lmdb_vdb_key : Bytes → Bytes → Bytes
  unfolding hex
  lmdb_vdb_key rcpt from =
      let ret =
        y.yaslcatprintf (codes "user:") (rcpt ++ (codes ":" ++ hex (rabin_fingerprint from))) in
      y.yaslrange ret (pos 0) (pos 511)

module _ (y : Yasl) (m : Mdb) where
  -- The comparison at the end of `lmdb_vdb_recent`, once the time of the last reply is known.
  check_time : ℕ → ℕ → Option ℕ → Status
  check_time last interval none = status_ok
  check_time last interval (some now) = if ltb now (last + interval) then recent else status_ok

  check_data : ℕ → Datum → ℕ → Option ℕ → Status
  unfolding check_time
  check_data rc data' interval now =
      if not (rc == 0)
      then status_ok
      else if not (data'.size == 8)
      then status_ok
      else check_time data'.value interval now

  unfoldable pub lmdb_vdb_recent : Bytes → Bytes → ℕ → Option ℕ → m.Env → Status
  unfolding check_data
  lmdb_vdb_recent rcpt from interval now env =
      let key = lmdb_vdb_key y rcpt from in
      let (rc, txn) = m.txn_begin true env in
      let (rc', txn') = m.dbi_open txn in
      let (rc'', data') = m.get txn' key in
      if not (rc == 0)
      then status_ok
      else if not (rc' == 0)
      then status_ok
      else check_data rc'' data' interval now

  -- `mdb_txn_commit`: its failure is the result.
  commit_reply : m.Txn → m.Env → VacResult × m.Env
  commit_reply txn env =
      let (rc, env') = m.commit txn env in if not (rc == 0) then (tempfail, env') else (ok, env')

  store_at : ℕ → Bytes → Bytes → m.Env → VacResult × m.Env
  unfolding commit_reply
  store_at now rcpt from env =
      let (rc, txn) = m.txn_begin false env in
      let (rc', txn') = m.dbi_open txn in
      let key = lmdb_vdb_key y rcpt from in
      let (rc'', txn'') = m.put txn' key (record { size = 8; value = now; address = 0 }) in
      if not (rc == 0)
      then (tempfail, env)
      else if not (rc' == 0)
      then (tempfail, env)
      else if not (rc'' == 0)
      then (tempfail, env)
      else commit_reply txn'' env

  unfoldable pub lmdb_vdb_store_reply : Bytes → Bytes → Option ℕ → m.Env → VacResult × m.Env
  unfolding store_at
  lmdb_vdb_store_reply rcpt from none env = (tempfail, env)
  lmdb_vdb_store_reply rcpt from (some now) env = store_at now rcpt from env

  -- `strncmp(key.mv_data, "user:", 5) == 0 && …`: the last test compares the pointer with
  -- `expire`, which is 604800 seconds before `now`.
  pub is_expired : ℕ → Bytes × Datum → Bool
  is_expired now (key, data') =
      memcmp (codes "user:") key && data'.size == 8 && ltb (data'.address + 604800) now

  -- A failed `mdb_del` is only logged.
  gc_entries : ℕ → List (Bytes × Datum) → m.Txn → m.Txn
  unfolding is_expired
  gc_entries now [] txn = txn
  gc_entries now (entry ∷ rest) txn =
      gc_entries now rest (if is_expired now entry then (m.del txn entry.0).1 else txn)

  gc_at : ℕ → m.Env → m.Env
  unfolding gc_entries
  gc_at now env =
      let (rc, txn) = m.txn_begin false env in
      let (rc', txn') = m.dbi_open txn in
      if not (rc == 0)
      then env
      else if not (rc' == 0)
      then env
      else if not (m.cursor_open txn' == 0)
      then env
      else (m.commit (gc_entries now (m.entries txn') txn') env).1

  unfoldable pub lmdb_vdb_gc : Option ℕ → m.Env → m.Env
  unfolding gc_at
  lmdb_vdb_gc none env = env
  lmdb_vdb_gc (some now) env = gc_at now env
