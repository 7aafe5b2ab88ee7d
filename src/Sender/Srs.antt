-- ===== src/Sender/Srs.antt =====
-- `canon_from` takes back what a rewriting forwarder made of an address.
use simvacation.Common.{
  ℕ, suc, ◌+◌, ◌-◌, ◌<◌, ◌≡◌, ◌≢◌, ◌⊎◌, refl, sym, Bool, true, false, none, some, [], ◌∷◌, ◌++◌,
  Bytes, length, arith, lt→ltb, ne→==_false, ==_refl, append_assoc, drop-append, drop-append_add,
  drop-append_suc, take-append,
}
use simvacation.CString.{char, strstr, strncasecmp, memcmp, tolower}
use simvacation.CString.Search.{NulFree, Avoids, strchr-append, strrchr-append, strstr-append}
use simvacation.Yasl.{Yasl}
use simvacation.Sender.{
  is_srs, srs1_separator, strip_scheme, skip_hash, rebuild, canon_srs, canon_batv, canon_barracuda,
  canon_from,
}

-- What `local@domain` becomes behind the scheme's name at a forwarder.
abbrev pub forwarded : Bytes → Bytes → Bytes → Bytes → Bytes → Bytes
forwarded hash stamp domain local forwarder =
    hash ++ b'=' ∷ (stamp ++ b'=' ∷ (domain ++ b'=' ∷ (local ++ b'@' ∷ forwarder)))

abbrev pub address : Bytes → Bytes → Bytes
address local domain = local ++ b'@' ∷ domain

-- The parts that the scheme's separators can be told from.
pub record IsForwardable (hash stamp domain local forwarder : Bytes) : Type 0 where
  pub hash_plain : Avoids b'=' hash
  pub stamp_plain : Avoids b'=' stamp
  pub domain_plain : Avoids b'=' domain
  pub local_nul_free : NulFree local
  pub forwarder_plain : Avoids b'@' forwarder

module _ (y : Yasl) where
  skip_hash-forwarded :
      (hash stamp rest : Bytes)
      → Avoids b'=' hash
      → Avoids b'=' stamp
      → skip_hash y (hash ++ b'=' ∷ (stamp ++ b'=' ∷ rest)) ≡ rest
  unfolding skip_hash
  skip_hash-forwarded hash stamp rest h k =
      let e : suc (length hash) + length stamp + 1 ≡ length hash + suc (suc (length stamp)) =
        omega arith in
      rw (strchr-append b'=' hash (stamp ++ b'=' ∷ rest) (omega arith) h) (
        rw drop-append_suc (
          rw (strchr-append b'=' stamp rest (omega arith) k)
            (rw y.range_suffix (rw e (rw drop-append_add (rw drop-append_suc))))))

  rebuild-forwarded :
      (buf domain local forwarder : Bytes)
      → Avoids b'=' domain
      → NulFree local
      → Avoids b'@' forwarder
      → rebuild y buf (domain ++ b'=' ∷ (local ++ b'@' ∷ forwarder)) ≡ buf ++ address local domain
  unfolding rebuild
  rebuild-forwarded buf domain local forwarder h k l =
      let e : suc (length local) - 1 ≡ length local = omega arith in
      rw (strchr-append b'=' domain (local ++ b'@' ∷ forwarder) (omega arith) h) (
        rw drop-append (
          rw (strrchr-append b'@' (b'=' ∷ local) forwarder (omega arith) (omega arith, k) l) (
            rw (y.catlen_append, y.cat_append, y.catlen_append, e)
              (rw drop-append_suc (rw (take-append, take-append) (simp append_assoc))))))

  -- The address that the buffer begins with comes back, up to the quote.
  canon-forwarded :
      (buf hash stamp domain local forwarder : Bytes)
      → IsForwardable hash stamp domain local forwarder
      → rebuild y buf (skip_hash y (forwarded hash stamp domain local forwarder))
        ≡ buf ++ address local domain
  canon-forwarded buf hash stamp domain local forwarder f =
      rw
        (skip_hash-forwarded hash stamp (domain ++ b'=' ∷ (local ++ b'@' ∷ forwarder)) f.hash_plain
          f.stamp_plain)
        (rebuild-forwarded buf domain local forwarder f.domain_plain f.local_nul_free
          f.forwarder_plain)

abbrev pub quote : Bool → Bytes → Bytes
quote true s = b'"' ∷ s
quote false s = s

-- The three separators behind the scheme's name.
abbrev pub IsSeparator : ℕ → Type 0
IsSeparator sep = (sep ≡ b'=') ⊎ (sep ≡ b'-') ⊎ (sep ≡ b'+')

-- `local@domain` as a first forwarder writes it, and as a second one does with the first one's text,
-- where `inner` is the first one's separator behind its scheme's name.
abbrev pub srs0 : ℕ → Bytes → Bytes
srs0 sep body = b'S' ∷ b'R' ∷ b'S' ∷ b'0' ∷ sep ∷ body

abbrev pub reforwarded : Bytes → Bytes → ℕ → Bytes → Bytes
reforwarded hash first inner body = hash ++ b'=' ∷ (first ++ b'=' ∷ inner ∷ body)

abbrev pub srs1 : ℕ → Bytes → Bytes → ℕ → Bytes → Bytes
srs1 sep hash first inner body = b'S' ∷ b'R' ∷ b'S' ∷ b'1' ∷ sep ∷ reforwarded hash first inner body

-- The first forwarder's separator, where the text has none of those that the code looks for first.
pub data IsInner (text : Bytes) : ℕ → Type 0 where
  equals : IsInner text b'='
  minus : strstr text (b'=' ∷ b'=' ∷ []) ≡ none → IsInner text b'-'
  plus :
      strstr text (b'=' ∷ b'=' ∷ []) ≡ none
      → strstr text (b'=' ∷ b'-' ∷ []) ≡ none
      → IsInner text b'+'

is_srs-srs1 :
    (q : Bool) (sep inner : ℕ) (hash first body : Bytes)
    → IsSeparator sep
    → 13 < length (quote q (srs1 sep hash first inner body))
    → is_srs (quote q (srs1 sep hash first inner body)) ≡ true
unfolding is_srs strncasecmp tolower
is_srs-srs1 true sep inner hash first body s h = ground arith
is_srs-srs1 false sep inner hash first body s h = ground arith

-- The two bytes behind the first forwarder's name are the first of their kind.
two_signs :
    (inner : ℕ) (first body : Bytes)
    → char first ≢ inner
    → first ≢ []
    → Avoids b'=' first
    → strstr (b'=' ∷ (first ++ b'=' ∷ inner ∷ body)) (b'=' ∷ inner ∷ []) ≡ some (suc (length first))
unfolding strstr memcmp
two_signs inner [] body other ne k = absurd (ne refl)
two_signs inner (c ∷ first) body other ne k =
    let e : length first + 0 ≡ length first = omega arith in
    rw
      (strstr-append b'=' (inner ∷ []) first (b'=' ∷ inner ∷ body) {p = 0} k.1
        (rw (==_refl inner) refl))
      (rw (ne→==_false b'=' c (λ p. k.0.1 (sym p)), ne→==_false inner c (λ p. other (sym p)), e))

inner_at :
    (inner : ℕ) (hash first body : Bytes)
    → char first ≢ inner
    → first ≢ []
    → Avoids b'=' hash
    → Avoids b'=' first
    → strstr (reforwarded hash first inner body) (b'=' ∷ inner ∷ [])
      ≡ some (length hash + suc (length first))
inner_at inner hash first body other ne h k =
    strstr-append b'=' (inner ∷ []) hash (b'=' ∷ (first ++ b'=' ∷ inner ∷ body)) h
      (two_signs inner first body other ne k)

first_separator :
    (inner : ℕ) (hash first body : Bytes)
    → IsInner (reforwarded hash first inner body) inner
    → char first ≢ inner
    → first ≢ []
    → Avoids b'=' hash
    → Avoids b'=' first
    → srs1_separator (reforwarded hash first inner body) ≡ some (length hash + suc (length first))
unfolding srs1_separator
first_separator inner hash first body equals other ne h k =
    rw (inner_at inner hash first body other ne h k) refl
first_separator inner hash first body (minus e) other ne h k =
    rw (e, inner_at inner hash first body other ne h k) refl
first_separator inner hash first body (plus e f) other ne h k =
    rw (e, f, inner_at inner hash first body other ne h k) refl

module _ (y : Yasl) where
  canon_from-srs :
      (a b : Bytes)
      → is_srs a ≡ true
      → canon_srs y a ≡ b
      → canon_from y a ≡ canon_barracuda y (canon_batv y b)
  unfolding canon_from
  canon_from-srs a b t e = rw (t, e)

  strip_scheme-srs1 :
      (sep inner : ℕ) (hash first body : Bytes)
      → IsInner (reforwarded hash first inner body) inner
      → char first ≢ inner
      → first ≢ []
      → Avoids b'=' hash
      → Avoids b'=' first
      → strip_scheme y (srs1 sep hash first inner body) ≡ body
  unfolding strip_scheme
  strip_scheme-srs1 sep inner hash first body i other ne h k =
      let e : length hash + suc (length first) + 2 ≡ length hash + suc (length first + 2) =
        omega arith in
      rw (y.range_suffix, first_separator inner hash first body i other ne h k)
        (rw (y.range_suffix, e) (rw drop-append_add (rw drop-append_add)))

  canon_srs-eq :
      (q : Bool) (a hash stamp domain local forwarder : Bytes)
      → strip_scheme y (b'S' ∷ a) ≡ forwarded hash stamp domain local forwarder
      → IsForwardable hash stamp domain local forwarder
      → 1 < length (quote q (address local domain))
      → canon_srs y (quote q (b'S' ∷ a)) ≡ quote q (address local domain)
  unfolding canon_srs
  canon_srs-eq true a hash stamp domain local forwarder e f h =
      rw (y.range_suffix (quote true (b'S' ∷ a)) 1, e)
        (rw (canon-forwarded y (b'"' ∷ []) hash stamp domain local forwarder f) (rw (lt→ltb _ _ h)))
  canon_srs-eq false a hash stamp domain local forwarder e f h =
      rw e (rw (canon-forwarded y [] hash stamp domain local forwarder f) (rw (lt→ltb _ _ h)))

  -- The same of an address that a second forwarder has rewritten by SRS1, with any of the separators
  -- before what the first one wrote: what both wrote is undone. The first forwarder's name is not
  -- empty, does not begin with that separator and has no `=`, nor has the second one's hash; and the
  -- text has nowhere one of the separators that the code looks for before that one. Neither text is too
  -- short for the code's tests, and the other parts are free of the bytes that end them.
  pub canon_from-srs1 :
      (q : Bool) (sep inner : ℕ) (hash' first hash stamp domain local forwarder : Bytes)
      → IsSeparator sep
      → IsInner (reforwarded hash' first inner (forwarded hash stamp domain local forwarder)) inner
      → char first ≢ inner
      → first ≢ []
      → Avoids b'=' hash'
      → Avoids b'=' first
      → IsForwardable hash stamp domain local forwarder
      → 13
        < length
            (quote q (srs1 sep hash' first inner (forwarded hash stamp domain local forwarder)))
      → 1 < length (quote q (address local domain))
      → canon_from y
          (quote q (srs1 sep hash' first inner (forwarded hash stamp domain local forwarder)))
        ≡ canon_barracuda y (canon_batv y (quote q (address local domain)))
  canon_from-srs1 q sep inner hash' first hash stamp domain local forwarder s i other ne a b f h k =
      let body = forwarded hash stamp domain local forwarder in
      canon_from-srs (quote q (srs1 sep hash' first inner body)) (quote q (address local domain))
        (is_srs-srs1 q sep inner hash' first body s h)
        (canon_srs-eq q _ hash stamp domain local forwarder
          (strip_scheme-srs1 sep inner hash' first body i other ne a b) f k)
