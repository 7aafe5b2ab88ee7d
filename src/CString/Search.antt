-- ===== src/CString/Search.antt =====
-- Where `strchr`, `strrchr` and `strstr` find what they look for.
use simvacation.Common.{
  ℕ, ◌+◌, ◌≡◌, ◌≢◌, refl, ap, ◌∙◌, none, some, [], ◌∷◌, ◌++◌, Bytes, length, All, arith,
}
use simvacation.CString.{strchr, strrchr, strstr}

-- No byte of the string is NUL.
abbrev pub NulFree : Bytes → Type 0
NulFree = All (λ d. d ≢ 0)

-- No byte of the string is NUL or `c`.
abbrev pub Avoids : ℕ → Bytes → Type 0
Avoids c = All (λ d. (d ≢ 0) × (d ≢ c))

pub Avoids-NulFree : (c : ℕ) (s : Bytes) → Avoids c s → NulFree s
Avoids-NulFree c [] h = tt
Avoids-NulFree c (d ∷ s) h = (h.0.0, Avoids-NulFree c s h.1)

module _ (c : ℕ) where
  pub strchr-append :
      (xs ys : Bytes) → c ≢ 0 → Avoids c xs → strchr (xs ++ c ∷ ys) c ≡ some (length xs)
  unfolding strchr
  strchr-append [] ys n h = ground arith
  strchr-append (x ∷ xs) ys n h = ground (arith, strchr-append xs ys n h.1)

  pub strchr-none : (xs : Bytes) → Avoids c xs → strchr xs c ≡ none
  unfolding strchr
  strchr-none [] h = refl
  strchr-none (x ∷ xs) h = ground (arith, strchr-none xs h.1)

  pub strrchr-none : (xs : Bytes) → Avoids c xs → strrchr xs c ≡ none
  unfolding strrchr
  strrchr-none [] h = refl
  strrchr-none (x ∷ xs) h = ground (arith, strrchr-none xs h.1)

  pub strrchr-append :
      (xs ys : Bytes)
      → c ≢ 0
      → NulFree xs
      → Avoids c ys
      → strrchr (xs ++ c ∷ ys) c ≡ some (length xs)
  unfolding strrchr
  strrchr-append [] ys n h k = ground (arith, strrchr-none ys k)
  strrchr-append (x ∷ xs) ys n h k = ground (arith, strrchr-append xs ys n h.1 k)

-- What begins with `d` is not found before the first `d`.
pub strstr-append :
    (d : ℕ) (n xs ys : Bytes) {p : ℕ}
    → Avoids d xs
    → strstr ys (d ∷ n) ≡ some p
    → strstr (xs ++ ys) (d ∷ n) ≡ some (length xs + p)
unfolding strstr
strstr-append d n [] ys h e = e ∙ ap some (omega arith)
strstr-append d n (x ∷ xs) ys h e = ground (arith, strstr-append d n xs ys h.1 e)
