-- ===== src/Sender.antt =====
-- vutil.c, `canon_from` and `check_from`: the address that a message came from, with the rewriting
-- of forwarders (SRS) and of bounce validation (BATV) undone, and the senders that get no reply.
pub mod Srs
pub mod Batv
pub mod Check
use simvacation.Common.{
  ℕ, zero, suc, ◌+◌, ◌-◌, Bool, true, false, ◌&&◌, ◌||◌, Option, none, some, List, [], ◌∷◌, ◌==◌,
  leb, ltb, if◌then◌else◌, Bytes, codes, length, get_or, drop, pos, negsuc, sub_ℕ,
}
use simvacation.CString.{char, strncasecmp, strchr, strrchr, strstr, memcmp}
use simvacation.Yasl.{Yasl}
use mathlib.Core.Option

-- The `strncasecmp(p, "SRS", 3) == 0 && …` test, where `p` skips an opening quote.
pub is_srs : Bytes → Bool
is_srs a =
    let p = if char a == b'"' then drop 1 a else a in
    strncasecmp p (codes "SRS") 3
    && ltb 13 (length a)
    && (get_or p 3 0 == b'0' || get_or p 3 0 == b'1')
    && (get_or p 4 0 == b'=' || get_or p 4 0 == b'-' || get_or p 4 0 == b'+')

-- `if ((p = strstr(a, x)) != NULL || …)`: the first separator of the three that occurs.
abbrev or_else : Option ℕ → Option ℕ → Option ℕ
or_else none q = q
or_else (some p) q = some p

pub srs1_separator : Bytes → Option ℕ
srs1_separator a =
    or_else (strstr a (codes "==")) (or_else (strstr a (codes "=-")) (strstr a (codes "=+")))

-- `strchr(p + 1, c)`, as an offset into the string that `p` points into.
abbrev next_chr : Bytes → ℕ → Option ℕ → Option ℕ
next_chr a c none = none
next_chr a c (some p) = Option.map (λ q. suc p + q) (strchr (drop (suc p) a) c)

module _ (y : Yasl) where
  -- `yaslrange(a, p - a + n, -1)` if `p` is not `NULL`.
  pub cut_from : Bytes → ℕ → Option ℕ → Bytes
  cut_from a n none = a
  cut_from a n (some p) = y.yaslrange a (pos (p + n)) (negsuc 0)

  -- The scheme's name goes, and for SRS1 the first forwarder too.
  pub strip_scheme : Bytes → Bytes
  unfolding cut_from srs1_separator
  strip_scheme a =
      let b = y.yaslrange a (pos 5) (negsuc 0) in
      if get_or a 3 0 == b'1' then cut_from b 2 (srs1_separator b) else b

  -- Skip the hash and timestamp.
  pub skip_hash : Bytes → Bytes
  unfolding cut_from
  skip_hash a = cut_from a 1 (next_chr a b'=' (strchr a b'='))

  -- `a` is `domain.tld=localpart@forwarder.tld`, or the address is borked.
  rebuild_at : Bytes → Bytes → ℕ → Option ℕ → Bytes
  rebuild_at buf a sep none = buf
  rebuild_at buf a sep (some p) =
      let b = y.yaslcatlen buf (drop (suc sep) a) (p - 1) in
      y.yaslcatlen (y.yaslcat b (codes "@")) a sep

  rebuild_sep : Bytes → Bytes → Option ℕ → Bytes
  unfolding rebuild_at
  rebuild_sep buf a none = buf
  rebuild_sep buf a (some sep) = rebuild_at buf a sep (strrchr (drop sep a) b'@')

  pub rebuild : Bytes → Bytes → Bytes
  unfolding rebuild_sep
  rebuild buf a = rebuild_sep buf a (strchr a b'=')

  pub canon_srs : Bytes → Bytes
  canon_srs from =
      let quoted = char from == b'"' in
      let a = if quoted then y.yaslrange from (pos 1) (negsuc 0) else from in
      let buf = if quoted then codes "\"" else [] in
      let out = rebuild buf (skip_hash (strip_scheme a)) in if ltb 1 (length out) then out else from

  -- `strchr(a + 5, '=')`, as an offset into `a + 5`.
  pub canon_batv : Bytes → Bytes
  unfolding cut_from
  canon_batv a =
      if strncasecmp a (codes "prvs=") 5 then cut_from a 6 (strchr (drop 5 a) b'=') else a

  pub canon_barracuda : Bytes → Bytes
  unfolding cut_from
  canon_barracuda a =
      if strncasecmp a (codes "btv1==") 6 then cut_from a 8 (strstr (drop 6 a) (codes "==")) else a

  unfoldable pub canon_from : Bytes → Bytes
  unfolding is_srs canon_srs strip_scheme skip_hash rebuild canon_batv canon_barracuda
  canon_from from = canon_barracuda (canon_batv (if is_srs from then canon_srs from else from))

  -- Chop off the domain.
  chop_at : Bytes → Option ℕ → Bytes
  chop_at a none = a
  chop_at a (some p) = y.yaslrange a (pos 0) (sub_ℕ p 1)

  pub local_part : Bytes → Bytes
  unfolding chop_at
  local_part cfrom = y.yasltolower (y.yasltrim (chop_at cfrom (strrchr cfrom b'@')) (codes "\""))

-- The table `ignore`.
abbrev pub ignore : List Bytes
ignore =
    codes "-errors"
    ∷ codes "-request"
    ∷ codes "postmaster"
    ∷ codes "mailer-daemon"
    ∷ codes "mailer"
    ∷ codes "-relay"
    ∷ codes "<>"
    ∷ []

-- `len >= cur->len && memcmp(cur->name, p - cur->len, cur->len) == 0`
pub ends_with : Bytes → Bytes → Bool
ends_with a name = leb (length name) (length a) && memcmp name (drop (length a - length name) a)

pub ignored : List Bytes → Bytes → Bool
unfolding ends_with
ignored [] a = false
ignored (name ∷ names) a = ends_with a name || ignored names a

-- `none` is the `NULL` of a sender that gets no reply.
unfoldable pub check_from : Yasl → Bytes → Option Bytes
unfolding canon_from local_part ignored
check_from y from =
    let cfrom = canon_from y from in
    if ignored ignore (local_part y cfrom) then none else some cfrom
