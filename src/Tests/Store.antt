-- ===== src/Tests/Store.antt =====
-- An LMDB that never fails and keeps what it is given, to run vdb_lmdb.c with.
use simvacation.Common.{
  ℕ, ◌≡◌, ◌≢◌, refl, Option, none, some, List, [], ◌∷◌, Bytes, if◌then◌else◌, arith,
}
use simvacation.Common.{same, same_self, same_ne}
use simvacation.Vdb.Mdb.{Mdb, Datum, IsStore}

abbrev find : List (Bytes × Datum) → Bytes → Option Datum
find [] j = none
find (e ∷ es) j = let rest = find es j in if same e.0 j then some e.1 else rest

abbrev answer : Option Datum → ℕ × Datum
answer none = (30798, record { size = 0; value = 0; address = 0 })
answer (some d) = (0, d)

abbrev remove : List (Bytes × Datum) → Bytes → List (Bytes × Datum)
remove [] k = []
remove (e ∷ es) k = let rest = remove es k in if same e.0 k then rest else e ∷ rest

abbrev pub mdb : Mdb
mdb = record {
  Env = List (Bytes × Datum);
  Txn = List (Bytes × Datum);
  txn_begin = λ ro e. (0, e);
  dbi_open = λ t. (0, t);
  get = λ t k. answer (find t k);
  put = λ t k d. (0, (k, d) ∷ t);
  del = λ t k. (0, remove t k);
  commit = λ t e. (0, t);
  cursor_open = λ t. 0;
  entries = λ t. t;
}

pub found_law :
    (t : List (Bytes × Datum)) (k : Bytes) (d : Datum)
    → find t k ≡ some d
    → ((answer (find t k)).0 ≡ 0)
      × ((answer (find t k)).1.size ≡ d.size)
      × ((answer (find t k)).1.value ≡ d.value)
found_law t k d e = rw e (refl, refl, refl)

pub missing_law :
    (t : List (Bytes × Datum)) (k : Bytes) → find t k ≡ none → (answer (find t k)).0 ≢ 0
missing_law t k e = rw e (λ h. omega arith)

pub put_law : (t : List (Bytes × Datum)) (k : Bytes) (d : Datum) → find ((k, d) ∷ t) k ≡ some d
put_law t k d = rw (same_self k)

pub put_ne_law :
    (t : List (Bytes × Datum)) (k j : Bytes) (d : Datum) → k ≢ j → find ((k, d) ∷ t) j ≡ find t j
put_ne_law t k j d ne = rw (same_ne k j ne)

abbrev pub store : IsStore mdb
store = record {
  look = find;
  view = find;
  view_begin = λ ro e k h. refl;
  view_open = λ t k h. refl;
  get_found = found_law;
  get_missing = missing_law;
  view_put = λ t k d h. put_law t k d;
  view_put_ne = λ t k j d h ne. put_ne_law t k j d ne;
  look_commit = λ t e k h. refl;
}
