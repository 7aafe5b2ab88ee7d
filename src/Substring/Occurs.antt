-- ===== src/Substring/Occurs.antt =====
-- `is_substring` decides whether the needle occurs, without regard to case.
use simvacation.Common.{
  ℕ, suc, ◌≡◌, ◌⊎◌, inl, inr, refl, ap, ◌∙◌, sym, Bool, true, false, Option, none, some, [], ◌∷◌,
  ◌++◌, map, if◌then◌else◌, Bytes, codes, arith, Bool-cases, append_assoc,
}
use simvacation.CString.{strstr, memcmp, tolower}
use simvacation.Yasl.{Yasl, mapped}
use mathlib.Core.Option
use simvacation.Substring.{is_found, haystack, is_substring}

-- `n` stands somewhere in `h`.
abbrev pub Occurs : Bytes → Bytes → Type 0
Occurs n h = (before : Bytes) × (after : Bytes) × (h ≡ before ++ (n ++ after))

memcmp_sound : (n s : Bytes) → memcmp n s ≡ true → (after : Bytes) × (s ≡ n ++ after)
unfolding memcmp
memcmp_sound [] s h = (s, refl)
memcmp_sound (c ∷ n) [] h = cc
memcmp_sound (c ∷ n) (d ∷ s) h =
    let (after, e) = memcmp_sound n s (ground arith) in (after, ground arith)

memcmp-append : (n after : Bytes) → memcmp n (n ++ after) ≡ true
unfolding memcmp
memcmp-append [] after = refl
memcmp-append (c ∷ n) after = ground (arith, memcmp-append n after)

Occurs-here : (n s : Bytes) → memcmp n s ≡ true → Occurs n s
Occurs-here n s h = let (after, e) = memcmp_sound n s h in ([], after, e)

Occurs-later : (c : ℕ) (n h : Bytes) → Occurs n h → Occurs n (c ∷ h)
Occurs-later c n h (before, after, e) = (c ∷ before, after, ap (◌∷◌ c) e)

later_found : (o : Option ℕ) → is_found (Option.map suc o) ≡ is_found o
later_found none = refl
later_found (some p) = refl

strstr_sound : (h n : Bytes) → is_found (strstr h n) ≡ true → Occurs n h
unfolding strstr
strstr_sound [] n e = elim (Bool-cases (memcmp n [])) [
  | inl t ↦ Occurs-here n [] t
  | inr f ↦ cc (rw f at e)
]
strstr_sound (c ∷ h) n e = elim (Bool-cases (memcmp n (c ∷ h))) [
  | inl t ↦ Occurs-here n (c ∷ h) t
  | inr f ↦ Occurs-later c n h (strstr_sound h n (sym (later_found (strstr h n)) ∙ (rw f at e)))
]

strstr_complete : (before n after : Bytes) → is_found (strstr (before ++ (n ++ after)) n) ≡ true
unfolding strstr
strstr_complete [] [] [] = refl
strstr_complete [] [] (c ∷ after) = refl
strstr_complete [] (c ∷ n) after = rw (memcmp-append (c ∷ n) after)
strstr_complete (b ∷ before) n after = elim (Bool-cases (memcmp n (b ∷ (before ++ (n ++ after))))) [
  | inl t ↦ rw t
  | inr f ↦ rw f (rw later_found (strstr_complete before n after))
]

-- What a needle is looked for in, and what it reads as.
abbrev pub lowered : Bytes → Bool → Bytes
lowered h name =
    if name then map (mapped (codes "._") (codes "  ") 2) (map tolower h) else map tolower h

module _ (y : Yasl) where
  haystack-lowered : (h : Bytes) (name : Bool) → haystack y h name ≡ lowered h name
  unfolding haystack
  haystack-lowered h true = rw (y.tolower_each, y.mapchars_each)
  haystack-lowered h false = y.tolower_each h

  is_substring-eq :
      (n h : Bytes) (name : Bool)
      → is_substring y n h name ≡ is_found (strstr (lowered h name) (map tolower n))
  unfolding is_substring
  is_substring-eq n h name =
      ap (λ t. is_found (strstr (haystack y h name) t)) (y.tolower_each n)
      ∙ ap (λ t. is_found (strstr t (map tolower n))) (haystack-lowered h name)

  -- The needle, in lower case, stands somewhere in the text, in lower case and for a name with `.`
  -- and `_` read as blanks, exactly if the code says so.
  pub is_substring-decides :
      (n h : Bytes) (name : Bool)
      → ((is_substring y n h name ≡ true) × Occurs (map tolower n) (lowered h name))
        ⊎ ((is_substring y n h name ≡ false) × ¬ Occurs (map tolower n) (lowered h name))
  is_substring-decides n h name =
      let e = is_substring-eq n h name in
      elim (Bool-cases (is_found (strstr (lowered h name) (map tolower n)))) [
        | inl t ↦ inl (e ∙ t, strstr_sound (lowered h name) (map tolower n) t)
        | inr f ↦ inr (
          e ∙ f,
          λ (before, after, at). cc (
            f,
            ap (λ t. is_found (strstr t (map tolower n))) at,
            strstr_complete before (map tolower n) after,
          ),
        )
      ]

  pub is_substring-Occurs :
      (n h : Bytes) (name : Bool)
      → Occurs (map tolower n) (lowered h name)
      → is_substring y n h name ≡ true
  is_substring-Occurs n h name o = elim (is_substring-decides n h name) [
    | inl (t, _) ↦ t
    | inr (_, never) ↦ absurd (never o)
  ]

-- A text that stands in another also stands in what goes on behind that.
pub Occurs-append : (n h rest : Bytes) → Occurs n h → Occurs n (h ++ rest)
Occurs-append n h rest (before, after, e) = (
  before,
  after ++ rest,
  ap (λ t. t ++ rest) e
      ∙ append_assoc before (n ++ after) rest
      ∙ ap (λ t. before ++ t) (append_assoc n after rest),
)
