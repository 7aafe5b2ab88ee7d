-- ===== src/Headers/Classify.antt =====
-- What `readheaders` does at a line that begins with one of the keywords of no reply.
use simvacation.Common.{ℕ, ◌≡◌, true, Bytes, codes, arith}
use simvacation.CString.{tolower}
use simvacation.Yasl.{Yasl}
use simvacation.Headers.{
  Scan, suppress, check_header, classify, auto_submitted, precedence, response_suppress, noreply,
}
use simvacation.Headers.Keywords.{check_header_other}

module _ (y : Yasl) where
  -- Where a keyword has been found, those of other first letters are not.
  pub classify-list :
      (s : Scan) → check_header s.buf (codes "List-") ≡ true → classify y s ≡ suppress
  unfolding classify tolower
  classify-list s h =
      let other = λ (d : ℕ) (g : Bytes). check_header_other s.buf b'L' d (codes "ist-") g h in
      rw (
        other b'M' (codes "essage-ID:") (omega arith),
        other b'R' (codes "eferences:") (omega arith),
        other b'I' (codes "n-Reply-To:") (omega arith),
        other b'A' (codes "uto-Submitted:") (omega arith),
        h,
      )

  pub classify-auto :
      (s : Scan)
      → check_header s.buf (codes "Auto-Submitted:") ≡ true
      → classify y s ≡ auto_submitted (record s { state = noreply })
  unfolding classify tolower
  classify-auto s h =
      let other =
        λ (d : ℕ) (g : Bytes). check_header_other s.buf b'A' d (codes "uto-Submitted:") g h in
      rw (
        other b'M' (codes "essage-ID:") (omega arith),
        other b'R' (codes "eferences:") (omega arith),
        other b'I' (codes "n-Reply-To:") (omega arith),
        h,
      )

  pub classify-precedence :
      (s : Scan)
      → check_header s.buf (codes "Precedence") ≡ true
      → classify y s ≡ precedence (record s { state = noreply })
  unfolding classify tolower
  classify-precedence s h =
      let other = λ (d : ℕ) (g : Bytes). check_header_other s.buf b'P' d (codes "recedence") g h in
      rw (
        other b'M' (codes "essage-ID:") (omega arith),
        other b'R' (codes "eferences:") (omega arith),
        other b'I' (codes "n-Reply-To:") (omega arith),
        other b'A' (codes "uto-Submitted:") (omega arith),
        other b'L' (codes "ist-") (omega arith),
        h,
      )

  pub classify-response :
      (s : Scan)
      → check_header s.buf (codes "X-Auto-Response-Suppress:") ≡ true
      → classify y s ≡ response_suppress y (record s { state = noreply })
  unfolding classify tolower
  classify-response s h =
      let other = λ (d : ℕ) (g : Bytes).
        check_header_other s.buf b'X' d (codes "-Auto-Response-Suppress:") g h in
      rw (
        other b'M' (codes "essage-ID:") (omega arith),
        other b'R' (codes "eferences:") (omega arith),
        other b'I' (codes "n-Reply-To:") (omega arith),
        other b'A' (codes "uto-Submitted:") (omega arith),
        other b'L' (codes "ist-") (omega arith),
        other b'P' (codes "recedence") (omega arith),
        h,
      )
