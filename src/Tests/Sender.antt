-- ===== src/Tests/Sender.antt =====
-- The theorems on senders at inputs.
use simvacation.Common.{◌≡◌, ◌⊎◌, inl, refl, true, false, none, some, [], ◌∷◌, map, codes, arith}
use simvacation.CString.{strncasecmp, strstr, memcmp, tolower}
use simvacation.Yasl.{trim}
use simvacation.Sender.{canon_from, canon_batv, canon_barracuda, ignore, check_from}
use simvacation.Sender.Srs.{IsForwardable, plus, canon_from-srs1}
use simvacation.Sender.Batv.{canon_from-prvs, canon_from-btv1, canon_from_plain}
use simvacation.Sender.Check.{EndsIn, check_from-decides}
use simvacation.Substring.{is_substring}
use simvacation.Substring.Occurs.{Occurs, lowered, is_substring-decides}
use simvacation.Tests.Model.{model}

abbrev plain :
    IsForwardable (codes "gf") (codes "fp") (codes "sub.edu") (codes "foo") (codes "ex.edu")
plain = record {
  hash_plain = omega arith;
  stamp_plain = omega arith;
  domain_plain = omega arith;
  local_nul_free = omega arith;
  forwarder_plain = omega arith;
}

canon_from-srs1_example :
    canon_from model (codes "SRS1=h=first.edu=+gf=fp=sub.edu=foo@ex.edu")
    ≡ canon_barracuda model (canon_batv model (codes "foo@sub.edu"))
unfolding strstr memcmp
canon_from-srs1_example =
    canon_from-srs1 model false b'=' b'+' (codes "h") (codes "first.edu") (codes "gf") (codes "fp")
      (codes "sub.edu") (codes "foo") (codes "ex.edu") (inl refl) (plus refl refl) (omega arith)
      (λ e. cc) (omega arith) (omega arith) plain (omega arith) (omega arith)

canon_from-prvs_example : canon_from model (codes "prvs=tag=foo@ex.edu") ≡ codes "foo@ex.edu"
unfolding strncasecmp tolower
canon_from-prvs_example =
    canon_from-prvs model (codes "tag") (codes "foo@ex.edu") (omega arith) refl

canon_from-btv1_example : canon_from model (codes "btv1==tag==foo@ex.edu") ≡ codes "foo@ex.edu"
canon_from-btv1_example = canon_from-btv1 model (codes "tag") (codes "foo@ex.edu") (omega arith)

canon_from_plain_example : canon_from model (codes "foo@ex.edu") ≡ codes "foo@ex.edu"
unfolding tolower
canon_from_plain_example = canon_from_plain model (codes "foo@ex.edu") (omega arith)

check_from-decides_example :
    ((check_from model (codes "List-Errors@ex.edu") ≡ none)
      × EndsIn ignore (map tolower (trim (b'"' ∷ []) (codes "List-Errors"))))
    ⊎ ((check_from model (codes "List-Errors@ex.edu") ≡ some (codes "List-Errors@ex.edu"))
        × ¬ EndsIn ignore (map tolower (trim (b'"' ∷ []) (codes "List-Errors"))))
unfolding tolower
check_from-decides_example =
    check_from-decides model (codes "List-Errors@ex.edu") (codes "List-Errors") (codes "ex.edu")
      (canon_from_plain model (codes "List-Errors@ex.edu") (omega arith)) (omega arith)
      (omega arith) (λ e. cc)

is_substring-decides_example :
    ((is_substring model (codes "oo") (codes "FOO") false ≡ true)
      × Occurs (map tolower (codes "oo")) (lowered (codes "FOO") false))
    ⊎ ((is_substring model (codes "oo") (codes "FOO") false ≡ false)
        × ¬ Occurs (map tolower (codes "oo")) (lowered (codes "FOO") false))
is_substring-decides_example = is_substring-decides model (codes "oo") (codes "FOO") false
