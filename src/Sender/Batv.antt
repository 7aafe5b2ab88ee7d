-- ===== src/Sender/Batv.antt =====
-- `canon_from` on bounce addresses: it drops the tag of one, and leaves an address alone that begins
-- with no scheme's letter and no quote.
use simvacation.Common.{
  ℕ, suc, ◌+◌, ◌≡◌, ◌≢◌, refl, ◌∙◌, ap, false, [], ◌∷◌, ◌++◌, Bytes, codes, length, arith,
  drop-append_add, ne→==_false, drop-append_suc,
}
use simvacation.CString.{char, strncasecmp, strstr, tolower}
use simvacation.CString.Search.{Avoids, strchr-append, strstr-append}
use simvacation.Yasl.{Yasl}
use simvacation.Sender.{is_srs, canon_batv, canon_barracuda, canon_from}

abbrev pub prvs : Bytes → Bytes → Bytes
prvs tag a = b'p' ∷ b'r' ∷ b'v' ∷ b's' ∷ b'=' ∷ (tag ++ b'=' ∷ a)

abbrev pub btv1 : Bytes → Bytes → Bytes
btv1 tag a = b'b' ∷ b't' ∷ b'v' ∷ b'1' ∷ b'=' ∷ b'=' ∷ (tag ++ b'=' ∷ b'=' ∷ a)

-- The first byte is not one that a rewritten address begins with.
abbrev pub StartsPlain : Bytes → Type 0
StartsPlain a =
    (char a ≢ b'"')
    × (tolower (char a) ≢ b's')
    × (tolower (char a) ≢ b'p')
    × (tolower (char a) ≢ b'b')

strncasecmp_ne :
    (s t : Bytes) (n : ℕ) → tolower (char s) ≢ tolower (char t) → strncasecmp s t (suc n) ≡ false
unfolding strncasecmp
strncasecmp_ne s t n h = rw (ne→==_false _ _ h)

is_srs_plain : (a : Bytes) → StartsPlain a → is_srs a ≡ false
unfolding is_srs tolower
is_srs_plain a h = rw (ne→==_false (char a) b'"' h.0) (rw (strncasecmp_ne a (codes "SRS") 2 h.1))

module _ (y : Yasl) where
  canon_batv-prvs : (tag a : Bytes) → Avoids b'=' tag → canon_batv y (prvs tag a) ≡ a
  unfolding canon_batv strncasecmp tolower
  canon_batv-prvs tag a h =
      let e : length tag + 6 ≡ suc (suc (suc (suc (suc (suc (length tag)))))) = omega arith in
      rw (strchr-append b'=' tag a (omega arith) h) (rw (y.range_suffix, e) (rw drop-append_suc))

  canon_barracuda-btv1 : (tag a : Bytes) → Avoids b'=' tag → canon_barracuda y (btv1 tag a) ≡ a
  unfolding canon_barracuda strncasecmp tolower
  canon_barracuda-btv1 tag a h =
      let found =
        strstr-append b'=' (b'=' ∷ []) tag (b'=' ∷ b'=' ∷ a) {p = 0} h (unfold strstr in refl) in
      let e : length tag + 0 + 8 ≡ suc (suc (suc (suc (suc (suc (length tag + 2)))))) =
        omega arith in
      rw found (rw (y.range_suffix, e) (rw drop-append_add))

  canon_barracuda_plain :
      (a : Bytes) → strncasecmp a (codes "btv1==") 6 ≡ false → canon_barracuda y a ≡ a
  unfolding canon_barracuda
  canon_barracuda_plain a h = rw h

  canon_batv_plain : (a : Bytes) → strncasecmp a (codes "prvs=") 5 ≡ false → canon_batv y a ≡ a
  unfolding canon_batv
  canon_batv_plain a h = rw h

  -- A bounce address `prvs=tag=a` is taken for `a`, whatever `a` holds, unless `a` begins with the
  -- other scheme's `btv1==`; the tag has no `=` and no NUL.
  pub canon_from-prvs :
      (tag a : Bytes)
      → Avoids b'=' tag
      → strncasecmp a (codes "btv1==") 6 ≡ false
      → canon_from y (prvs tag a) ≡ a
  unfolding canon_from strncasecmp tolower
  canon_from-prvs tag a h n =
      ap (canon_barracuda y) (canon_batv-prvs tag a h) ∙ canon_barracuda_plain a n

  -- A bounce address `btv1==tag==a` is taken for `a`, whatever `a` holds; the tag has no `=`.
  pub canon_from-btv1 : (tag a : Bytes) → Avoids b'=' tag → canon_from y (btv1 tag a) ≡ a
  unfolding canon_from strncasecmp tolower
  canon_from-btv1 tag a h = canon_barracuda-btv1 tag a h

  -- An address that begins with none of the bytes of a scheme's name, nor with a quote, stays.
  pub canon_from_plain : (a : Bytes) → StartsPlain a → canon_from y a ≡ a
  unfolding canon_from tolower
  canon_from_plain a h = rw (is_srs_plain a h) (
      rw (canon_batv_plain a (strncasecmp_ne a (codes "prvs=") 4 h.2))
        (canon_barracuda_plain a (strncasecmp_ne a (codes "btv1==") 5 h.3)))
