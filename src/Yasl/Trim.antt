-- ===== src/Yasl/Trim.antt =====
-- `yasltrim(s, "\n")` of a text with no newline but at its end.
use simvacation.Common.{
  ℕ, ◌≡◌, ◌≢◌, ◌⊎◌, inl, inr, ap, ◌&&◌, [], ◌∷◌, ◌==◌, Bytes, codes, Bool-cases, ==_iff,
}
use simvacation.CString.Ends.{OneLine, Ended}
use simvacation.Yasl.Reference.{trim, trim_left, trim_right, trim_onto, is_empty, member}

trim_left-Ended : (s : Bytes) → Ended s → Ended (trim_left (codes "\n") s)
trim_left-Ended [] h = tt
trim_left-Ended (c ∷ s) h = elim (Bool-cases (member (codes "\n") c)) [
  | inl t ↦ rw t (trim_left-Ended s h.1)
  | inr f ↦ rw f h
]

trim_onto-OneLine :
    (c : ℕ) (s : Bytes) → (c ≢ b'\n') ⊎ (s ≡ []) → OneLine s → OneLine (trim_onto (codes "\n") c s)
trim_onto-OneLine c s (inl n) h = elim (Bool-cases (is_empty s && member (codes "\n") c)) [
  | inl t ↦ rw t tt
  | inr f ↦ rw f (n, h)
]
trim_onto-OneLine c s (inr e) h = elim (Bool-cases (c == b'\n')) [
  | inl t ↦ rw (e, t) tt
  | inr f ↦ rw (e, f) (λ z. cc (f, (==_iff c b'\n').1 z), tt)
]

trim_right-OneLine : (s : Bytes) → Ended s → OneLine (trim_right (codes "\n") s)
trim_right-OneLine [] h = tt
trim_right-OneLine (c ∷ s) h =
    trim_onto-OneLine c (trim_right (codes "\n") s)
      (elim h.0 [ inl n ↦ inl n | inr e ↦ inr (ap (trim_right (codes "\n")) e) ])
      (trim_right-OneLine s h.1)

-- Trimming takes the newline away.
pub trim-OneLine : (s : Bytes) → Ended s → OneLine (trim (codes "\n") s)
trim-OneLine s h = trim_right-OneLine (trim_left (codes "\n") s) (trim_left-Ended s h)
