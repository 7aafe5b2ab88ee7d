-- ===== src/Common/Keys.antt =====
-- The test that two byte strings are the same.
use mathlib.Core.Path.{◌≡◌, refl}
use mathlib.Core.Logic.{◌≢◌, inl, inr}
use mathlib.Core.Bool.{Bool, true, false, ◌&&◌}
use mathlib.Core.List.{[], ◌∷◌}
use native.Mathlib.Omega.{arith}
use simvacation.Common.Lists.{Bytes}
use simvacation.Common.Tests.{◌==◌, Bool-cases}

abbrev pub same : Bytes → Bytes → Bool
same [] [] = true
same [] (d ∷ j) = false
same (c ∷ k) [] = false
same (c ∷ k) (d ∷ j) = (c == d) && same k j

pub same_self : (k : Bytes) → same k k ≡ true
same_self [] = refl
same_self (c ∷ k) = ground (arith, same_self k)

pub same_sound : (k j : Bytes) → same k j ≡ true → k ≡ j
same_sound [] [] h = refl
same_sound [] (d ∷ j) h = cc
same_sound (c ∷ k) [] h = cc
same_sound (c ∷ k) (d ∷ j) h = ground (arith, same_sound k j)

pub same_ne : (k j : Bytes) → k ≢ j → same k j ≡ false
same_ne k j ne = elim (Bool-cases (same k j)) [ inl t ↦ absurd (ne (same_sound k j t)) | inr f ↦ f ]
