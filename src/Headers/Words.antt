-- ===== src/Headers/Words.antt =====
-- Comparisons without regard to case, on the names and the words of a header line.
use simvacation.Common.{
  ℕ, zero, suc, ◌≤◌, ◌≡◌, ◌≢◌, ◌⊎◌, inl, inr, refl, ap, ◌∙◌, sym, Bool, true, false, [], ◌∷◌, ◌++◌,
  map, Bytes, codes, length, drop, get_or, ◌==◌, arith, if◌then◌else◌, ne→==_false, ==_refl,
  append-nil, drop-append_suc, Bool-cases,
}
use simvacation.CString.{char, next, tolower, isspace, strncasecmp}
use simvacation.CString.Search.{Avoids}
use simvacation.Headers.{check_header}

both_true : (b x : Bool) → x ≡ true → (if b then true else x) ≡ true
both_true true x h = refl
both_true false x h = h

pub strncasecmp-same :
    (n : ℕ) (f name rest rest' : Bytes)
    → map tolower f ≡ map tolower name
    → n ≤ length f
    → strncasecmp (f ++ rest) (name ++ rest') n ≡ true
unfolding strncasecmp
strncasecmp-same zero f name rest rest' e h = refl
strncasecmp-same (suc n) [] name rest rest' e h = absurd (omega arith)
strncasecmp-same (suc n) (c ∷ f) [] rest rest' e h = cc
strncasecmp-same (suc n) (c ∷ f) (d ∷ name) rest rest' e h =
    rw (ap char e, ==_refl (tolower d))
      (both_true (c == 0) _ (strncasecmp-same n f name rest rest' (ap next e) (omega arith)))

-- A line begins with a keyword in whatever case.
pub check_header-same :
    (f name rest : Bytes) → map tolower f ≡ map tolower name → check_header (name ++ rest) f ≡ true
unfolding check_header
check_header-same f name rest e =
    ap (λ g. strncasecmp g (name ++ rest) (length f)) (sym (append-nil f))
    ∙ strncasecmp-same (length f) f name [] rest e (omega arith)

pub length-lower : (s t : Bytes) → map tolower s ≡ t → length s ≡ length t
length-lower [] [] e = refl
length-lower [] (d ∷ t) e = cc
length-lower (c ∷ s) [] e = cc
length-lower (c ∷ s) (d ∷ t) e = ap suc (length-lower s t (ap next e))

pub drop_behind :
    (n : ℕ) (name : Bytes) (c : ℕ) (ys : Bytes)
    → suc (length name) ≡ n
    → drop n (name ++ c ∷ ys) ≡ ys
drop_behind n name c ys e = ap (λ k. drop k (name ++ c ∷ ys)) (sym e) ∙ drop-append_suc name c ys

pub get_or-append : (n : ℕ) (name ys : Bytes) → length name ≡ n → get_or (name ++ ys) n 0 ≡ char ys
get_or-append zero [] [] e = refl
get_or-append zero [] (c ∷ ys) e = refl
get_or-append zero (c ∷ name) ys e = absurd (omega arith)
get_or-append (suc n) [] ys e = absurd (omega arith)
get_or-append (suc n) (c ∷ name) ys e = get_or-append n name ys (omega arith)

lower_avoids : (b : ℕ) → (tolower b ≢ 0) × (tolower b ≢ b':') → (b ≢ 0) × (b ≢ b':')
unfolding tolower
lower_avoids b h = (ground arith, ground arith)

pub Avoids-lower : (s : Bytes) → Avoids b':' (map tolower s) → Avoids b':' s
Avoids-lower [] h = tt
Avoids-lower (c ∷ s) h = (lower_avoids c h.0, Avoids-lower s h.1)

-- A letter is no blank.
pub isspace_letter : (d : ℕ) → b'a' ≤ tolower d → (isspace d ≡ false) × (d ≢ 0)
unfolding tolower isspace
isspace_letter d h = (ground arith, ground arith)

-- The words of a `Precedence` header that the code looks for.
abbrev pub IsBulkWord : Bytes → Type 0
IsBulkWord word = (word ≡ codes "junk") ⊎ (word ≡ codes "bulk") ⊎ (word ≡ codes "list")

pub IsBulkWord-letter : (d : ℕ) (u : Bytes) → IsBulkWord (map tolower (d ∷ u)) → b'a' ≤ tolower d
IsBulkWord-letter d u (inl e) = let h : tolower d ≡ b'j' = ap char e in omega arith
IsBulkWord-letter d u (inr (inl e)) = let h : tolower d ≡ b'b' = ap char e in omega arith
IsBulkWord-letter d u (inr (inr e)) = let h : tolower d ≡ b'l' = ap char e in omega arith

-- What does not begin with `no`, in whatever case.
abbrev pub NotNo : Bytes → Type 0
NotNo v = (tolower (char v) ≢ b'n') ⊎ (tolower (char (next v)) ≢ b'o')

pub strncasecmp-no :
    (d : ℕ) (rest : Bytes)
    → d ≢ 0
    → NotNo (d ∷ rest)
    → strncasecmp (d ∷ rest) (codes "no") 2 ≡ false
unfolding strncasecmp tolower
strncasecmp-no d rest z (inl n) = rw (ne→==_false _ _ n)
strncasecmp-no d rest z (inr o) = elim (Bool-cases (tolower d == b'n')) [
  | inl t ↦ rw (t, ne→==_false d 0 z, ne→==_false _ _ o)
  | inr f ↦ rw f
]

-- The newline behind a value does not make it begin with `no`.
pub NotNo-newline : (d : ℕ) (w rest : Bytes) → NotNo (d ∷ w) → NotNo (d ∷ (w ++ b'\n' ∷ rest))
unfolding tolower
NotNo-newline d w rest (inl n) = inl n
NotNo-newline d [] rest (inr o) = inr (omega arith)
NotNo-newline d (c ∷ w) rest (inr o) = inr o
