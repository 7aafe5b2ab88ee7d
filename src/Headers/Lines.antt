-- ===== src/Headers/Lines.antt =====
-- The loop over the input, seen as a loop over the lines of the header.
use mathlib.Core.Path.{fun_ext}
use simvacation.Common.{
  ℕ, zero, suc, ◌<◌, ◌≡◌, ◌≢◌, refl, ap, ◌∙◌, sym, List, [], ◌∷◌, ◌++◌, Bytes, length, All, arith,
  ne→==_false, length-append,
}
use simvacation.CString.{fill}
use simvacation.CString.Search.{Avoids}
use simvacation.CString.Lines.{fgets_line-append, fgets_rest-append}
use simvacation.Yasl.{Yasl}
use simvacation.Headers.{
  Scan, Loop, finished, after, header_line, header_round, header_loop, closing, initial,
  readheaders,
}

-- A line of a header, without its newline: it is not empty and fits the buffer.
abbrev pub IsLine : Bytes → Type 0
IsLine l = (l ≢ []) × Avoids b'\n' l × (length l < 999)

-- A message: the lines of its header, an empty line, and its body.
abbrev pub message : List Bytes → Bytes → Bytes
message [] body = b'\n' ∷ body
message (l ∷ ls) body = l ++ b'\n' ∷ message ls body

-- The buffer after a line has been read.
abbrev pub with_line : Bytes → Scan → Scan
with_line l s = record s { buf = fill (l ++ b'\n' ∷ []) s.buf }

unfoldable pub lines_loop : Yasl → List Bytes → Scan → Loop
lines_loop y [] s = finished (record s { buf = fill (b'\n' ∷ []) s.buf })
lines_loop y (l ∷ ls) s = after (header_line y (with_line l s)) (lines_loop y ls)

module _ (y : Yasl) where
  header_round-line :
      (l : Bytes) (s : Scan) (next : Scan → Loop)
      → IsLine l
      → header_round y (l ++ b'\n' ∷ []) s next ≡ after (header_line y (with_line l s)) next
  unfolding header_round fill
  header_round-line [] s next h = absurd (h.0 refl)
  header_round-line (c ∷ l) s next h =
      rw (ne→==_false (suc (length (l ++ b'\n' ∷ []))) 0 (omega arith))
        (rw (ne→==_false c b'\n' h.1.0.1))

  header_round-end :
      (s : Scan) (next : Scan → Loop)
      → header_round y (b'\n' ∷ []) s next ≡ finished (record s { buf = fill (b'\n' ∷ []) s.buf })
  unfolding header_round fill
  header_round-end s next = refl

  pub header_loop-message :
      (ls : List Bytes) (body : Bytes) (fuel : ℕ) (s : Scan)
      → All IsLine ls
      → length (message ls body) < fuel
      → header_loop y fuel (message ls body) s ≡ lines_loop y ls s
  unfolding header_loop lines_loop
  header_loop-message [] body zero s h n = absurd (omega arith)
  header_loop-message (l ∷ ls) body zero s h n = absurd (omega arith)
  header_loop-message [] body (suc fuel) s h n =
      rw (fgets_line-append 999 [] body tt (omega arith)) (header_round-end s _)
  header_loop-message (l ∷ ls) body (suc fuel) s h n =
      let room : length (message ls body) < fuel =
        omega (arith, length-append l (b'\n' ∷ message ls body)) in
      rw (fgets_line-append 999 l (message ls body) h.0.1 h.0.2) (
        rw (fgets_rest-append 999 l (message ls body) h.0.1 h.0.2) (
          header_round-line l s _ h.0
          ∙ ap (after (header_line y (with_line l s)))
              (fun_ext λ t. header_loop-message ls body fuel t h.1 room)))

  pub readheaders-lines :
      (names : List Bytes) (garbage : Bytes) (ls : List Bytes) (body : Bytes)
      → All IsLine ls
      → readheaders y names garbage (message ls body)
        ≡ closing y names (lines_loop y ls (initial garbage))
  unfolding readheaders
  readheaders-lines names garbage ls body h = ap (closing y names) (
      header_loop-message ls body (suc (length (message ls body))) (initial garbage) h
        (omega arith))

  -- What stands behind the empty line does not count: two messages with the same header are read
  -- the same way, whatever their bodies. The header's lines fit the buffer and have no NUL.
  pub readheaders_ignores_body :
      (names : List Bytes) (garbage : Bytes) (ls : List Bytes) (body body' : Bytes)
      → All IsLine ls
      → readheaders y names garbage (message ls body)
        ≡ readheaders y names garbage (message ls body')
  readheaders_ignores_body names garbage ls body body' h =
      readheaders-lines names garbage ls body h ∙ sym (readheaders-lines names garbage ls body' h)
