-- ===== src/Vdb/Lmdb/Gc.antt =====
-- `lmdb_vdb_gc`: what the collection of old entries goes by.
use simvacation.Common.{ℕ, ◌+◌, ◌≤◌, ◌≡◌, refl, false, some, List, [], ◌∷◌, Bytes, All, arith}
use simvacation.Yasl.{Yasl}
use simvacation.Vdb.Mdb.{Mdb, Datum}
use simvacation.Vdb.Lmdb.{is_expired, gc_entries, lmdb_vdb_gc}

module _ (y : Yasl) (m : Mdb) where
  is_expired_high :
      (now : ℕ) (e : Bytes × Datum) → now ≤ e.1.address + 604800 → is_expired y m now e ≡ false
  unfolding is_expired
  is_expired_high now e h = ground arith

  gc_entries_high :
      (now : ℕ) (es : List (Bytes × Datum)) (txn : m.Txn)
      → All (λ e. now ≤ e.1.address + 604800) es
      → gc_entries y m now es txn ≡ txn
  unfolding gc_entries
  gc_entries_high now [] txn h = refl
  gc_entries_high now (e ∷ es) txn h =
      rw (is_expired_high now e h.0) (gc_entries_high now es txn h.1)

  -- Where the pointers to the stored times are, as numbers, no less than the time a week ago,
  -- the collection commits its transaction with no entry deleted, however old the stored times are.
  pub lmdb_vdb_gc_deletes_nothing :
      (now : ℕ) (env : m.Env)
      → (m.txn_begin false env).0 ≡ 0
      → (m.dbi_open (m.txn_begin false env).1).0 ≡ 0
      → m.cursor_open (m.dbi_open (m.txn_begin false env).1).1 ≡ 0
      → All (λ e. now ≤ e.1.address + 604800) (m.entries (m.dbi_open (m.txn_begin false env).1).1)
      → lmdb_vdb_gc y m (some now) env ≡ (m.commit (m.dbi_open (m.txn_begin false env).1).1 env).1
  unfolding lmdb_vdb_gc
  lmdb_vdb_gc_deletes_nothing now env b o c h = rw (b, o, c) (rw (gc_entries_high now _ _ h))
