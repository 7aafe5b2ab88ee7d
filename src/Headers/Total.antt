-- ===== src/Headers/Total.antt =====
-- The loop over the header ends: the fuel that `readheaders` gives it is enough.
use simvacation.Common.{
  ℕ, zero, suc, ◌<◌, ◌≢◌, refl, Bool, true, false, List, [], ◌∷◌, Bytes, ◌==◌, length, arith,
  if◌then◌else◌, ne→==_false,
}
use simvacation.CString.{char, fgets_line, fgets_rest, fill}
use simvacation.CString.Lines.{length-fgets}
use simvacation.Yasl.{Yasl}
use simvacation.Headers.{
  Scan, Verdict, go, stop, suppress, Loop, finished, suppressed, exhausted, after, header_line,
  header_round, header_loop, out_of_fuel, closing, initial, readheaders,
}

after-ne-exhausted :
    (v : Verdict) (next : Scan → Loop)
    → ((s : Scan) → next s ≢ exhausted)
    → after v next ≢ exhausted
after-ne-exhausted (go s) next h = h s
after-ne-exhausted (stop s) next h = λ e. cc
after-ne-exhausted suppress next h = λ e. cc

unless :
    (b : Bool) (s : Scan) (l : Loop) → l ≢ exhausted → (if b then finished s else l) ≢ exhausted
unless true s l h = λ e. cc
unless false s l h = h

header_round-ne-exhausted :
    (y : Yasl) (line : Bytes) (s : Scan) (next : Scan → Loop)
    → (0 < length line → (t : Scan) → next t ≢ exhausted)
    → header_round y line s next ≢ exhausted
unfolding header_round
header_round-ne-exhausted y [] s next h = λ e. cc
header_round-ne-exhausted y (c ∷ line) s next h =
    let read = record s { buf = fill (c ∷ line) s.buf } in
    rw (ne→==_false (suc (length line)) 0 (omega arith)) (
      unless (char read.buf == b'\n') read (after (header_line y read) next)
        (after-ne-exhausted (header_line y read) next (h (omega arith))))

header_loop-ne-exhausted :
    (y : Yasl) (fuel : ℕ) (stdin : Bytes) (s : Scan)
    → length stdin < fuel
    → header_loop y fuel stdin s ≢ exhausted
unfolding header_loop
header_loop-ne-exhausted y zero stdin s h = absurd (omega arith)
header_loop-ne-exhausted y (suc fuel) stdin s h =
    header_round-ne-exhausted y (fgets_line 999 stdin) s (header_loop y fuel (fgets_rest 999 stdin))
      λ some_read t.
        header_loop-ne-exhausted y fuel (fgets_rest 999 stdin) t
          (omega (arith, length-fgets 999 stdin))

closing-total :
    (y : Yasl) (names : List Bytes) (l : Loop) → l ≢ exhausted → closing y names l ≢ out_of_fuel
unfolding closing
closing-total y names (finished s) h = λ e. cc
closing-total y names suppressed h = λ e. cc
closing-total y names exhausted h = absurd (h refl)

-- Whatever the input and the names, `readheaders` comes to an end: it returns headers or `NULL`.
pub readheaders-total :
    (y : Yasl) (names : List Bytes) (garbage stdin : Bytes)
    → readheaders y names garbage stdin ≢ out_of_fuel
unfolding readheaders closing
readheaders-total y names garbage stdin =
    closing-total y names (header_loop y (suc (length stdin)) stdin (initial garbage))
      (header_loop-ne-exhausted y (suc (length stdin)) stdin (initial garbage) (omega arith))
