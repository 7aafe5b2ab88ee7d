-- ===== src/Sender/Check.antt =====
-- `check_from` refuses exactly the senders whose local part ends in a name of the table.
use simvacation.Common.{
  ℕ, suc, ◌-◌, ◌≤◌, ◌≡◌, ◌≢◌, ◌⊎◌, inl, inr, refl, ◌∙◌, ap, sym, Bool, true, Option, some, none,
  List, [], ◌∷◌, ◌++◌, map, if◌then◌else◌, Bytes, length, take, drop, arith, length-append,
  length-drop, take-append, take-append-drop, drop-append, Bool-cases, sub_ℕ, pos,
}
use simvacation.CString.{memcmp, tolower}
use simvacation.CString.Search.{NulFree, Avoids, strrchr-append}
use simvacation.Yasl.{Yasl, trim}
use simvacation.Sender.{ends_with, ignore, ignored, chop_at, local_part, canon_from, check_from}

-- The text ends in one of the names.
abbrev pub EndsIn : List Bytes → Bytes → Type 0
EndsIn [] a = ⊥
EndsIn (name ∷ names) a = ((before : Bytes) × (a ≡ before ++ name)) ⊎ EndsIn names a

memcmp-eq : (n s : Bytes) → length n ≡ length s → memcmp n s ≡ true → n ≡ s
unfolding memcmp
memcmp-eq [] [] e h = refl
memcmp-eq [] (d ∷ s) e h = absurd (omega arith)
memcmp-eq (c ∷ n) [] e h = absurd (omega arith)
memcmp-eq (c ∷ n) (d ∷ s) e h = ground (arith, memcmp-eq n s (omega arith))

memcmp_self : (n : Bytes) → memcmp n n ≡ true
unfolding memcmp
memcmp_self [] = refl
memcmp_self (c ∷ n) = ground (arith, memcmp_self n)

ends_with_sound :
    (a name : Bytes) → ends_with a name ≡ true → (before : Bytes) × (a ≡ before ++ name)
unfolding ends_with
ends_with_sound a name h =
    let k = length a - length name in
    let fits : length name ≤ length a = ground arith in
    let same : name ≡ drop k a =
      memcmp-eq name (drop k a) (omega (arith, length-drop k a)) (ground arith) in
    (take k a, sym (ap (λ s. take k a ++ s) same ∙ take-append-drop k a))

ends_with_complete : (before name : Bytes) → ends_with (before ++ name) name ≡ true
unfolding ends_with
ends_with_complete before name =
    let e : length (before ++ name) - length name ≡ length before =
      omega (arith, length-append before name) in
    let fits : length name ≤ length (before ++ name) = omega (arith, length-append before name) in
    rw e (rw drop-append (rw (memcmp_self name) (ground arith)))

ignored_sound : (names : List Bytes) (a : Bytes) → ignored names a ≡ true → EndsIn names a
unfolding ignored
ignored_sound [] a h = cc
ignored_sound (name ∷ names) a h = elim (Bool-cases (ends_with a name)) [
  | inl e ↦ inl (ends_with_sound a name e)
  | inr e ↦ inr (ignored_sound names a (rw e at h))
]

ignored_complete : (names : List Bytes) (a : Bytes) → EndsIn names a → ignored names a ≡ true
unfolding ignored
ignored_complete [] a h = absurd h
ignored_complete (name ∷ names) a (inl (before, e)) = rw e (rw (ends_with_complete before name))
ignored_complete (name ∷ names) a (inr h) = ground (arith, ignored_complete names a h)

before_at : (n : ℕ) → sub_ℕ (suc n) 1 ≡ pos n
before_at n = ground arith

module _ (y : Yasl) where
  local_part-eq :
      (local domain : Bytes)
      → NulFree local
      → Avoids b'@' domain
      → local ≢ []
      → local_part y (local ++ b'@' ∷ domain) ≡ map tolower (trim (b'"' ∷ []) local)
  unfolding local_part
  local_part-eq [] domain h k ne = absurd (ne refl)
  local_part-eq (c ∷ local) domain h k ne =
      rw (strrchr-append b'@' (c ∷ local) domain (omega arith) h k, local_part, chop_at)
        (rw (before_at (length local))
          (rw y.range_prefix (rw (take-append (c ∷ local)) (rw (y.trim_ends, y.tolower_each)))))

  pick : Bytes → Bool → Option Bytes
  pick c b = if b then none else some c

  verdict : Bytes → Bytes → Option Bytes
  unfolding pick
  verdict c local = pick c (ignored ignore local)

  check_from-eq :
      (from : Bytes) {c : Bytes}
      → canon_from y from ≡ c
      → check_from y from ≡ verdict c (local_part y c)
  unfolding check_from verdict
  check_from-eq from e = ap (λ c. verdict c (local_part y c)) e

  -- Either the sender gets no reply, and its local part, in lower case and without quotes at its ends,
  -- ends in a name of the table; or it gets one, under its canonical form, and the local part ends
  -- in none of them. The canonical form has a local part that is not empty, and the last `@` ends it.
  pub check_from-decides :
      (from local domain : Bytes)
      → canon_from y from ≡ local ++ b'@' ∷ domain
      → NulFree local
      → Avoids b'@' domain
      → local ≢ []
      → ((check_from y from ≡ none) × EndsIn ignore (map tolower (trim (b'"' ∷ []) local)))
        ⊎ ((check_from y from ≡ some (local ++ b'@' ∷ domain))
            × ¬ EndsIn ignore (map tolower (trim (b'"' ∷ []) local)))
  unfolding verdict
  check_from-decides from local domain e h k ne =
      let a = map tolower (trim (b'"' ∷ []) local) in
      let code = check_from-eq from e ∙ ap (verdict _) (local_part-eq local domain h k ne) in
      elim (Bool-cases (ignored ignore a)) [
        | inl t ↦ inl (code ∙ ap (pick _) t, ignored_sound ignore a t)
        | inr f ↦ inr (code ∙ ap (pick _) f, λ m. cc (f, ignored_complete ignore a m))
      ]
