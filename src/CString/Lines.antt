-- ===== src/CString/Lines.antt =====
-- What `fgets` reads, and what comparisons see of the buffer that it fills.
use simvacation.Common.{
  ℕ, zero, suc, ◌+◌, ◌<◌, ◌≡◌, ◌≢◌, ◌⊎◌, inl, inr, refl, ap, ◌∙◌, true, false, [], ◌∷◌, ◌++◌, ◌==◌,
  ne→==_false, Bytes, length, All, All-append, arith, Bool-cases,
}
use simvacation.CString.{
  char, cstr, tolower, strncasecmp, fgets_line, fgets_rest, skip_spaces, isspace,
}
use simvacation.CString.Search.{NulFree, Avoids, Avoids-NulFree}

-- Nothing of the input is lost.
pub length-fgets :
    (k : ℕ) (s : Bytes) → length (fgets_line k s) + length (fgets_rest k s) ≡ length s
unfolding fgets_line fgets_rest
length-fgets zero s = omega arith
length-fgets (suc k) [] = omega arith
length-fgets (suc k) (c ∷ s) = elim (Bool-cases (c == b'\n')) [
  | inl t ↦ rw t (omega arith)
  | inr f ↦ rw f (omega (arith, length-fgets k s))
]

-- A line that fits the buffer is read whole, with its newline.
pub fgets_line-append :
    (k : ℕ) (l rest : Bytes)
    → Avoids b'\n' l
    → length l < k
    → fgets_line k (l ++ b'\n' ∷ rest) ≡ l ++ b'\n' ∷ []
unfolding fgets_line
fgets_line-append zero l rest h n = absurd (omega arith)
fgets_line-append (suc k) [] rest h n = refl
fgets_line-append (suc k) (c ∷ l) rest h n =
    rw (ne→==_false c b'\n' h.0.1) (ap (◌∷◌ c) (fgets_line-append k l rest h.1 (omega arith)))

pub fgets_rest-append :
    (k : ℕ) (l rest : Bytes)
    → Avoids b'\n' l
    → length l < k
    → fgets_rest k (l ++ b'\n' ∷ rest) ≡ rest
unfolding fgets_rest
fgets_rest-append zero l rest h n = absurd (omega arith)
fgets_rest-append (suc k) [] rest h n = refl
fgets_rest-append (suc k) (c ∷ l) rest h n =
    rw (ne→==_false c b'\n' h.0.1) (fgets_rest-append k l rest h.1 (omega arith))

-- NUL and the newline have no other case.
tolower-eq-end : (c e : ℕ) → (e ≡ 0) ⊎ (e ≡ b'\n') → tolower c ≡ tolower e → c ≡ e
unfolding tolower
tolower-eq-end c e k h = ground arith

no_end : (c e : ℕ) → (e ≡ 0) ⊎ (e ≡ b'\n') → (c ≢ 0) × (c ≢ b'\n') → c ≢ e
no_end c e k h p = ground arith

-- A comparison with a keyword does not look behind a byte that ends the text.
pub strncasecmp-end :
    (f s rest : Bytes) (e : ℕ)
    → (e ≡ 0) ⊎ (e ≡ b'\n')
    → Avoids b'\n' f
    → strncasecmp f (s ++ e ∷ rest) (length f) ≡ strncasecmp f s (length f)
unfolding strncasecmp
strncasecmp-end [] s rest e k h = refl
strncasecmp-end (c ∷ f) [] rest e k h =
    rw (ne→==_false (tolower c) (tolower e) (λ p. no_end c e k h.0 (tolower-eq-end c e k p)))
      (rw (ne→==_false (tolower c) (tolower 0) (λ p. h.0.0 (tolower-eq-end c 0 (inl refl) p))))
strncasecmp-end (c ∷ f) (d ∷ s) rest e k h = rw (strncasecmp-end f s rest e k h.1)

-- Texts that compare equal begin with the same letter.
pub strncasecmp-char :
    (s t : Bytes) (n : ℕ) → strncasecmp s t (suc n) ≡ true → tolower (char s) ≡ tolower (char t)
unfolding strncasecmp
strncasecmp-char s t n h = ground arith

cstr-nul : (s rest : Bytes) → NulFree s → cstr (s ++ 0 ∷ rest) ≡ s
cstr-nul [] rest h = refl
cstr-nul (c ∷ s) rest h = rw (ne→==_false c 0 h.0) (ap (◌∷◌ c) (cstr-nul s rest h.1))

skip_spaces-space : (c : ℕ) (s : Bytes) → isspace c ≡ true → skip_spaces (c ∷ s) ≡ skip_spaces s
unfolding skip_spaces
skip_spaces-space c s h = ground arith

skip_spaces_stops : (c : ℕ) (s : Bytes) → isspace c ≡ false → skip_spaces (c ∷ s) ≡ c ∷ s
unfolding skip_spaces
skip_spaces_stops c s h = ground arith

pub skip_spaces-append :
    (sp : Bytes) (d : ℕ) (rest : Bytes)
    → All (λ c. isspace c ≡ true) sp
    → isspace d ≡ false
    → skip_spaces (sp ++ d ∷ rest) ≡ d ∷ rest
skip_spaces-append [] d rest h k = skip_spaces_stops d rest k
skip_spaces-append (c ∷ sp) d rest h k =
    skip_spaces-space c (sp ++ d ∷ rest) h.0 ∙ skip_spaces-append sp d rest h.1 k

-- What a C string function sees of the buffer is the line with its newline.
pub cstr-line :
    (l rest : Bytes) → Avoids b'\n' l → cstr ((l ++ b'\n' ∷ []) ++ 0 ∷ rest) ≡ l ++ b'\n' ∷ []
cstr-line l rest h =
    cstr-nul (l ++ b'\n' ∷ []) rest
      (All-append _ l (b'\n' ∷ []) (Avoids-NulFree b'\n' l h) (omega arith, tt))
