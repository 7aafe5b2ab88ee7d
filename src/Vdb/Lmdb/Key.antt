-- ===== src/Vdb/Lmdb/Key.antt =====
-- `lmdb_vdb_key`: the key is cut behind its 512th byte.
use Prim.Native.Nat.{min}
use simvacation.Common.{
  ◌≤◌, ◌≡◌, ap, ◌∙◌, sym, ◌++◌, Bytes, codes, length, take, arith, length-append, length-take,
  take-append_le,
}
use simvacation.CString.Print.{hex}
use simvacation.Yasl.{Yasl}
use simvacation.Rabin.{rabin_fingerprint}
use simvacation.Vdb.Lmdb.{lmdb_vdb_key}

-- The key before the cut.
abbrev pub whole_key : Bytes → Bytes → Bytes
whole_key rcpt from = (codes "user:" ++ rcpt) ++ (codes ":" ++ hex (rabin_fingerprint from))

module _ (y : Yasl) where
  lmdb_vdb_key-take :
      (rcpt from : Bytes) → lmdb_vdb_key y rcpt from ≡ take 512 (whole_key rcpt from)
  unfolding lmdb_vdb_key
  lmdb_vdb_key-take rcpt from = rw (y.range_prefix, y.catprintf_append)

  -- A key is never longer than 512 bytes.
  pub length-lmdb_vdb_key :
      (rcpt from : Bytes)
      → length (lmdb_vdb_key y rcpt from) ≡ min 512 (length (whole_key rcpt from))
  length-lmdb_vdb_key rcpt from =
      ap length (lmdb_vdb_key-take rcpt from) ∙ length-take 512 (whole_key rcpt from)

  -- For a recipient of 507 bytes or more the key has 512 bytes, one more than LMDB's default limit of
  -- 511, and does not depend on the sender: the fingerprint is cut off.
  pub lmdb_vdb_key_long :
      (rcpt from from' : Bytes)
      → 507 ≤ length rcpt
      → (length (lmdb_vdb_key y rcpt from) ≡ 512)
        × (lmdb_vdb_key y rcpt from ≡ lmdb_vdb_key y rcpt from')
  lmdb_vdb_key_long rcpt from from' h = (
    omega (
      arith,
      length-lmdb_vdb_key rcpt from,
      length-append (codes "user:" ++ rcpt) (codes ":" ++ hex (rabin_fingerprint from)),
    ),
    lmdb_vdb_key-take rcpt from
        ∙ take-append_le 512 (codes "user:" ++ rcpt) _ (omega arith)
        ∙ sym (take-append_le 512 (codes "user:" ++ rcpt) _ (omega arith))
        ∙ sym (lmdb_vdb_key-take rcpt from'),
  )
