-- ===== src/CString/Ends.antt =====
-- Newlines in what `fgets` reads, and in what is taken from it.
use simvacation.Common.{
  ℕ, zero, suc, ◌≡◌, ◌≢◌, ◌⊎◌, inl, inr, refl, ap, some, none, Option, [], ◌∷◌, ◌++◌, ◌==◌, Bytes,
  drop, All, arith, Bool-cases, ==_iff, ne→==_false,
}
use simvacation.CString.{cstr, strchr, skip_spaces, isspace, fgets_line, fill}
use mathlib.Core.Option

-- No newline.
abbrev pub OneLine : Bytes → Type 0
OneLine = All (λ c. c ≢ b'\n')

-- No newline but at the end.
abbrev pub Ended : Bytes → Type 0
Ended [] = Unit
Ended (c ∷ s) = ((c ≢ b'\n') ⊎ (s ≡ [])) × Ended s

pub fgets_line-Ended : (k : ℕ) (s : Bytes) → Ended (fgets_line k s)
unfolding fgets_line
fgets_line-Ended zero s = tt
fgets_line-Ended (suc k) [] = tt
fgets_line-Ended (suc k) (c ∷ s) = elim (Bool-cases (c == b'\n')) [
  | inl t ↦ rw t (inr refl, tt)
  | inr f ↦ rw f (inl (λ e. cc (f, (==_iff c b'\n').1 e)), fgets_line-Ended k s)
]

cstr-Ended : (s rest : Bytes) → Ended s → Ended (cstr (s ++ 0 ∷ rest))
cstr-Ended [] rest h = tt
cstr-Ended (c ∷ s) rest h = elim (Bool-cases (c == 0)) [
  | inl t ↦ rw t tt
  | inr f ↦ rw f (
    elim h.0 [ inl n ↦ inl n | inr e ↦ inr (ap (λ u. cstr (u ++ 0 ∷ rest)) e) ],
    cstr-Ended s rest h.1,
  )
]

pub fill-Ended : (line buf : Bytes) → Ended line → Ended (cstr (fill line buf))
unfolding fill
fill-Ended line buf h = cstr-Ended line _ h

tail-Ended : (c : ℕ) (s : Bytes) → c ≢ 0 → Ended (cstr (c ∷ s)) → Ended (cstr s)
tail-Ended c s n h = let h = rw (ne→==_false c 0 n) at h in h.1

-- What stands behind a place in the buffer, if there is one.
abbrev pub EndedBehind : Bytes → Option ℕ → Type 0
EndedBehind s none = Unit
EndedBehind s (some p) = Ended (cstr (drop (suc p) s))

map-EndedBehind :
    (d : ℕ) (s : Bytes) (o : Option ℕ) → EndedBehind s o → EndedBehind (d ∷ s) (Option.map suc o)
map-EndedBehind d s none h = tt
map-EndedBehind d s (some p) h = h

pub strchr-EndedBehind : (s : Bytes) (c : ℕ) → Ended (cstr s) → EndedBehind s (strchr s c)
unfolding strchr
strchr-EndedBehind [] c h = tt
strchr-EndedBehind (d ∷ s) c h = elim (Bool-cases (d == 0)) [
  | inl t ↦ rw t tt
  | inr f ↦
      let below = tail-Ended d s (λ z. cc (f, (==_iff d 0).1 z)) h in
      elim (Bool-cases (d == c)) [
        | inl t ↦ rw (f, t) below
        | inr g ↦ rw (f, g) (map-EndedBehind d s (strchr s c) (strchr-EndedBehind s c below))
      ]
]

pub skip_spaces-Ended : (s : Bytes) → Ended (cstr s) → Ended (cstr (skip_spaces s))
unfolding skip_spaces
skip_spaces-Ended [] h = tt
skip_spaces-Ended (c ∷ s) h = elim (Bool-cases (isspace c)) [
  | inl t ↦ rw t (skip_spaces-Ended s (tail-Ended c s (unfold isspace in ground arith) h))
  | inr f ↦ rw f h
]

pub append-Ended : (s t : Bytes) → OneLine s → Ended t → Ended (s ++ t)
append-Ended [] t h k = k
append-Ended (c ∷ s) t h k = (inl h.0, append-Ended s t h.1 k)
