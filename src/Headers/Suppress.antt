-- ===== src/Headers/Suppress.antt =====
-- Messages that get no reply because of a header.
use simvacation.Common.{
  ◌≡◌, refl, ap, ◌∙◌, Bool, true, false, List, [], ◌∷◌, ◌++◌, Bytes, codes, All, arith,
  if◌then◌else◌, All-middle,
}
use simvacation.CString.Search.{Avoids}
use simvacation.Yasl.{Yasl}
use simvacation.Headers.{
  Scan, Verdict, go, stop, suppress, Loop, suppressed, after, check_header, acted, classify,
  header_line, response_suppress, no_reply, closing, initial, readheaders,
}
use simvacation.Headers.Lines.{IsLine, message, with_line, lines_loop, readheaders-lines}
use simvacation.Headers.Bulk.{BulkLine, classify-BulkLine}
use simvacation.Headers.Keywords.{check_header-line}

-- The verdict is not a `break`.
pub data Moves : Verdict → Type 0 where
  goes : {s : Scan} → Moves (go s)
  suppresses : Moves suppress

Moves-if : (b : Bool) (v w : Verdict) → Moves v → Moves w → Moves (if b then v else w)
Moves-if true v w h k = h
Moves-if false v w h k = k

Moves-else : (v w : Verdict) → Moves w → Moves (if false then v else w)
Moves-else v w h = h

-- The line has neither of the two headers whose handling can end the loop.
abbrev pub CannotBreak : Bytes → Type 0
CannotBreak l =
    (check_header l (codes "Auto-Submitted:") ≡ false)
    × (check_header l (codes "Precedence") ≡ false)

module _ (y : Yasl) where
  response_suppress-Moves : (s : Scan) → Moves (response_suppress y s)
  unfolding response_suppress
  response_suppress-Moves s = search (Moves-if, goes, suppresses)

  classify-Moves : (s : Scan) → CannotBreak s.buf → Moves (classify y s)
  unfolding classify
  classify-Moves s h =
      rw (h.0, h.1)
        (search (Moves-else, Moves-if, goes, suppresses, response_suppress-Moves) depth 16)

  acted-Moves : (v : Verdict) → Moves v → Moves (acted y v)
  unfolding acted
  acted-Moves (go s) h = goes
  acted-Moves (stop s) h = elim h [ ]
  acted-Moves suppress h = suppresses

  after-suppressed :
      (v : Verdict) (next : Scan → Loop)
      → Moves v
      → ((s : Scan) → next s ≡ suppressed)
      → after v next ≡ suppressed
  after-suppressed (go s) next h k = k s
  after-suppressed (stop s) next h k = elim h [ ]
  after-suppressed suppress next h k = refl

  lines_loop-suppressed :
      (before : List Bytes) (l : Bytes) (behind : List Bytes) (s : Scan)
      → All CannotBreak before
      → Avoids b'\n' l
      → BulkLine l
      → lines_loop y (before ++ l ∷ behind) s ≡ suppressed
  unfolding lines_loop header_line acted
  lines_loop-suppressed [] l behind s h a b = rw (classify-BulkLine y l s a b)
  lines_loop-suppressed (p ∷ before) l behind s h a b =
      after-suppressed _ _
        (acted-Moves (classify y (with_line p s)) (
          classify-Moves (with_line p s) (
            check_header-line (codes "Auto-Submitted:") p s (omega arith) ∙ h.0.0,
            check_header-line (codes "Precedence") p s (omega arith) ∙ h.0.1,
          )))
        (λ t. lines_loop-suppressed before l behind t h.1 a b)

  -- A message gets no reply that has such a line anywhere in its header, in whatever case: of a List
  -- header, of an Auto-Submitted header whose value, read from behind the byte that follows the
  -- colon, is not empty and does not begin with `no`, of a Precedence header of junk, bulk or list,
  -- or of X-Auto-Response-Suppress with OOF or All. The header's lines are not empty, fit the buffer
  -- and have no NUL, and none before that one is an Auto-Submitted or a Precedence line. The other
  -- lines and the body may be any.
  pub readheaders-BulkLine :
      (names : List Bytes) (garbage : Bytes) (before : List Bytes) (l : Bytes) (behind : List Bytes)
      (body : Bytes)
      → All IsLine (before ++ l ∷ behind)
      → All CannotBreak before
      → BulkLine l
      → readheaders y names garbage (message (before ++ l ∷ behind) body) ≡ no_reply
  unfolding closing
  readheaders-BulkLine names garbage before l behind body lines h b =
      readheaders-lines y names garbage (before ++ l ∷ behind) body lines
      ∙ ap (closing y names) (
          lines_loop-suppressed before l behind (initial garbage) h
            (All-middle IsLine before l behind lines).1 b)
