-- ===== src/Yasl/Reference.antt =====
-- What the laws of the string library are stated with: one byte of `yaslmapchars`, and the
-- trimming of both ends of a string.
use simvacation.Common.{
  ℕ, zero, suc, Bool, true, false, ◌&&◌, ◌||◌, [], ◌∷◌, ◌==◌, if◌then◌else◌, Bytes,
}
use simvacation.CString.{char, next}

-- The byte that `c` becomes: the one in `to` at the first place of the first `n` where `from` has `c`.
abbrev pub mapped : Bytes → Bytes → ℕ → ℕ → ℕ
mapped from to zero c = c
mapped from to (suc n) c = if c == char from then char to else mapped (next from) (next to) n c

abbrev pub member : Bytes → ℕ → Bool
member [] c = false
member (d ∷ cset) c = c == d || member cset c

abbrev pub is_empty : Bytes → Bool
is_empty [] = true
is_empty (c ∷ s) = false

abbrev pub trim_left : Bytes → Bytes → Bytes
trim_left cset [] = []
trim_left cset (c ∷ s) = let rest = trim_left cset s in if member cset c then rest else c ∷ s

abbrev pub trim_onto : Bytes → ℕ → Bytes → Bytes
trim_onto cset c rest = if is_empty rest && member cset c then [] else c ∷ rest

abbrev pub trim_right : Bytes → Bytes → Bytes
trim_right cset [] = []
trim_right cset (c ∷ s) = trim_onto cset c (trim_right cset s)

abbrev pub trim : Bytes → Bytes → Bytes
trim cset s = trim_right cset (trim_left cset s)
