-- ===== src/Headers/Keeps.antt =====
-- What the verdict on a line leaves as it was: the values kept so far, and the buffer.
use simvacation.Common.{
  ℕ, suc, ◌≡◌, Bool, true, false, not, Option, none, some, Bytes, codes, drop, ◌==◌, if◌then◌else◌,
}
use simvacation.CString.{char, strchr, skip_spaces, strncasecmp}
use simvacation.Yasl.{Yasl}
use simvacation.Headers.{
  Scan, Verdict, go, stop, suppress, auto_submitted, is_bulk, precedence_at, precedence,
  response_suppress, classify, value_test,
}

-- The verdict on a line keeps the values and the buffer.
pub data Keeps (u : Scan) : Verdict → Type 0 where
  keeps_go : {t : Scan} → t.h ≡ u.h → t.buf ≡ u.buf → Keeps u (go t)
  keeps_stop : {t : Scan} → t.h ≡ u.h → Keeps u (stop t)
  keeps_suppress : Keeps u suppress

Keeps-if :
    (u : Scan) (b : Bool) (v w : Verdict) → Keeps u v → Keeps u w → Keeps u (if b then v else w)
Keeps-if u true v w h k = h
Keeps-if u false v w h k = k

value_test-Keeps :
    (u s : Scan) (p : Bytes) (refused : Bool)
    → s.h ≡ u.h
    → s.buf ≡ u.buf
    → Keeps u (value_test s p refused)
value_test-Keeps u s p refused e f =
    Keeps-if u (char p == 0) _ _ (keeps_stop e)
      (Keeps-if u refused _ _ keeps_suppress (keeps_go e f))

auto_submitted-Keeps : (u s : Scan) → s.h ≡ u.h → s.buf ≡ u.buf → Keeps u (auto_submitted s)
unfolding auto_submitted
auto_submitted-Keeps u s e f =
    let p = skip_spaces (drop 16 s.buf) in
    value_test-Keeps u s p (not (strncasecmp p (codes "no") 2)) e f

precedence_at-Keeps :
    (u s : Scan) (o : Option ℕ) → s.h ≡ u.h → s.buf ≡ u.buf → Keeps u (precedence_at s o)
unfolding precedence_at
precedence_at-Keeps u s none e f = keeps_go e f
precedence_at-Keeps u s (some p) e f =
    let v = skip_spaces (drop (suc p) s.buf) in value_test-Keeps u s v (is_bulk v) e f

precedence-Keeps : (u s : Scan) → s.h ≡ u.h → s.buf ≡ u.buf → Keeps u (precedence s)
unfolding precedence
precedence-Keeps u s e f =
    Keeps-if u _ _ _ (precedence_at-Keeps u s (strchr s.buf b':') e f) (keeps_go e f)

module _ (y : Yasl) where
  response_suppress-Keeps :
      (u s : Scan) → s.h ≡ u.h → s.buf ≡ u.buf → Keeps u (response_suppress y s)
  unfolding response_suppress
  response_suppress-Keeps u s e f = Keeps-if u _ _ _ keeps_suppress (keeps_go e f)

  pub classify-Keeps : (s : Scan) → Keeps s (classify y s)
  unfolding classify
  classify-Keeps s =
      search
        (
          Keeps-if, keeps_go, keeps_suppress, auto_submitted-Keeps, precedence-Keeps,
          response_suppress-Keeps,
        )
        depth 30
