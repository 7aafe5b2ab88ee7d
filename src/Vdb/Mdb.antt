-- ===== src/Vdb/Mdb.antt =====
-- LMDB (liblmdb) as vdb_lmdb.c calls it: a parameter of the model, with the laws of its
-- documentation that the theorems rely on.
use simvacation.Common.{ℕ, ◌≡◌, ◌≢◌, Bool, Option, none, some, List, Bytes}

-- An `MDB_val` of a stored time: `mv_size`, the `time_t` that `mv_data` points to, and the
-- pointer `mv_data` itself as a number.
pub record Datum : Type 0 where
  pub size : ℕ
  pub value : ℕ
  pub address : ℕ

-- Return codes are numbers, 0 for success. An environment is the stored data, and a transaction
-- is a value that the calls within it change.
pub record Mdb : Type 1 where
  pub Env : Type 0
  pub Txn : Type 0
  -- `mdb_txn_begin`, with the flag `MDB_RDONLY`
  pub txn_begin : Bool → Env → ℕ × Txn
  -- `mdb_dbi_open(txn, NULL, MDB_CREATE, &dbi)`
  pub dbi_open : Txn → ℕ × Txn
  pub get : Txn → Bytes → ℕ × Datum
  pub put : Txn → Bytes → Datum → ℕ × Txn
  pub del : Txn → Bytes → ℕ × Txn
  pub commit : Txn → Env → ℕ × Env
  pub cursor_open : Txn → ℕ
  -- The entries that `mdb_cursor_get` with `MDB_NEXT` returns one by one.
  pub entries : Txn → List (Bytes × Datum)

-- What the documentation promises of calls that succeed, through `look`, which says what a key
-- holds for the transactions that begin in an environment.
pub record IsStore (m : Mdb) : Type 0 where
  pub look : m.Env → Bytes → Option Datum
  pub view : m.Txn → Bytes → Option Datum
  -- A transaction begins with what the environment holds.
  pub view_begin :
      (ro : Bool) (e : m.Env) (k : Bytes)
      → (m.txn_begin ro e).0 ≡ 0
      → view (m.txn_begin ro e).1 k ≡ look e k
  pub view_open :
      (t : m.Txn) (k : Bytes) → (m.dbi_open t).0 ≡ 0 → view (m.dbi_open t).1 k ≡ view t k
  -- `mdb_get` finds what is there.
  pub get_found :
      (t : m.Txn) (k : Bytes) (d : Datum)
      → view t k ≡ some d
      → ((m.get t k).0 ≡ 0) × ((m.get t k).1.size ≡ d.size) × ((m.get t k).1.value ≡ d.value)
  pub get_missing : (t : m.Txn) (k : Bytes) → view t k ≡ none → (m.get t k).0 ≢ 0
  pub view_put :
      (t : m.Txn) (k : Bytes) (d : Datum) → (m.put t k d).0 ≡ 0 → view (m.put t k d).1 k ≡ some d
  pub view_put_ne :
      (t : m.Txn) (k j : Bytes) (d : Datum)
      → (m.put t k d).0 ≡ 0
      → k ≢ j
      → view (m.put t k d).1 j ≡ view t j
  -- After a commit the environment holds what the transaction saw.
  pub look_commit :
      (t : m.Txn) (e : m.Env) (k : Bytes)
      → (m.commit t e).0 ≡ 0
      → look (m.commit t e).1 k ≡ view t k
