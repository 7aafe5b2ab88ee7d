-- ===== src/Tests/Vdb.antt =====
-- The theorems on the vacation databases at inputs.
use Prim.Native.Nat.{min}
use simvacation.Common.{
  ℕ, zero, suc, ap, ◌+◌, ◌≡◌, ◌≢◌, ◌<◌, refl, false, some, List, [], ◌∷◌, Bytes, codes, length,
  arith, same, same_self,
}
use simvacation.Rabin.{rabin_fingerprint}
use simvacation.Vdb.{recent}
use simvacation.Vdb.Mdb.{Datum}
use simvacation.Vdb.Lmdb.{lmdb_vdb_key, lmdb_vdb_recent, lmdb_vdb_store_reply, lmdb_vdb_gc}
use simvacation.Vdb.Lmdb.Key.{whole_key, length-lmdb_vdb_key, lmdb_vdb_key_long}
use simvacation.Vdb.Lmdb.Recent.{recent-store_reply, recent-store_reply_ne, recent_only_if_stored}
use simvacation.Vdb.Lmdb.Refines.{
  DbCall, store_call, recent_call, last_reply, promised, answered, NeverFails, answered-promised,
}
use simvacation.Vdb.Lmdb.Gc.{lmdb_vdb_gc_deletes_nothing}
use simvacation.Tests.Model.{model}
use simvacation.Tests.Store.{mdb, store}

abbrev alice : Bytes
alice = codes "alice"

abbrev bob : Bytes
bob = codes "bob@ex.edu"

abbrev carol : Bytes
carol = codes "carol@ex.edu"

recent-store_reply_example :
    lmdb_vdb_recent model mdb alice bob 100
      (some 1050)
      (lmdb_vdb_store_reply model mdb alice bob (some 1000) []).1
    ≡ recent
unfolding lmdb_vdb_store_reply
recent-store_reply_example = recent-store_reply model mdb store alice bob 1000 100 1050 [] refl

keys_same : same (lmdb_vdb_key model alice bob) (lmdb_vdb_key model alice carol) ≡ false
unfolding lmdb_vdb_key rabin_fingerprint
keys_same = refl

same-false : (k j : Bytes) → same k j ≡ false → k ≢ j
same-false k j f e = cc (f, ap (same k) e, same_self k)

recent-store_reply_ne_example :
    lmdb_vdb_recent model mdb alice carol 100
      (some 1050)
      (lmdb_vdb_store_reply model mdb alice bob (some 1000) []).1
    ≡ lmdb_vdb_recent model mdb alice carol 100 (some 1050) []
unfolding lmdb_vdb_store_reply
recent-store_reply_ne_example =
    recent-store_reply_ne model mdb store alice bob alice carol 1000 100 (some 1050) [] refl
      (refl, refl) (refl, refl) (same-false _ _ keys_same)

abbrev remembered : List (Bytes × Datum)
remembered = (lmdb_vdb_key model alice bob, record { size = 8; value = 1000; address = 0 }) ∷ []

answers_recent : lmdb_vdb_recent model mdb alice bob 100 (some 1050) remembered ≡ recent
unfolding lmdb_vdb_recent lmdb_vdb_key rabin_fingerprint
answers_recent = refl

recent_only_if_stored_example :
    (d : Datum) × (t : ℕ) × (store.look remembered (lmdb_vdb_key model alice bob) ≡ some d)
    × (d.size ≡ 8)
    × (some 1050 ≡ some t)
    × (t < d.value + 100)
recent_only_if_stored_example =
    recent_only_if_stored model mdb store alice bob 100 (some 1050) remembered answers_recent

abbrev a_week_old : List (Bytes × Datum)
a_week_old = (codes "user:alice:1", record { size = 8; value = 5; address = 140000000000000 }) ∷ []

lmdb_vdb_gc_deletes_nothing_example :
    lmdb_vdb_gc model mdb (some 1700000000) a_week_old ≡ a_week_old
lmdb_vdb_gc_deletes_nothing_example =
    lmdb_vdb_gc_deletes_nothing model mdb 1700000000 a_week_old refl refl refl (omega arith, tt)

length-lmdb_vdb_key_example :
    length (lmdb_vdb_key model alice bob) ≡ min 512 (length (whole_key alice bob))
length-lmdb_vdb_key_example = length-lmdb_vdb_key model alice bob

abbrev letters : ℕ → Bytes
letters zero = []
letters (suc n) = b'a' ∷ letters n

length-letters : (n : ℕ) → length (letters n) ≡ n
length-letters zero = refl
length-letters (suc n) = ap suc (length-letters n)

lmdb_vdb_key_long_example :
    (length (lmdb_vdb_key model (letters 507) bob) ≡ 512)
    × (lmdb_vdb_key model (letters 507) bob ≡ lmdb_vdb_key model (letters 507) carol)
lmdb_vdb_key_long_example =
    lmdb_vdb_key_long model (letters 507) bob carol (omega (arith, length-letters 507))

pub never_fails : NeverFails mdb
never_fails = record {
  begins = λ ro e. refl;
  opens = λ t. refl;
  puts = λ t k d. refl;
  commits = λ t e. refl;
}

abbrev calls : List DbCall
calls =
    recent_call alice bob 100 1000
    ∷ store_call alice bob 1000
    ∷ recent_call alice bob 100 1050
    ∷ recent_call alice bob 100 1100
    ∷ []

answered-promised_example : answered model mdb calls [] ≡ promised model calls []
unfolding last_reply
answered-promised_example = answered-promised model mdb store never_fails calls [] [] (λ k. refl)
