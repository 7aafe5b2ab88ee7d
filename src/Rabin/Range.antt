-- ===== src/Rabin/Range.antt =====
-- Two functions on a small range, compared by evaluation.
use simvacation.Common.{
  ℕ, zero, suc, ◌<◌, ◌≡◌, Bool, true, ◌&&◌, ◌==◌, ==_iff, arith, Bool-cases, inl, inr,
}

unfoldable pub agree : (ℕ → ℕ) → (ℕ → ℕ) → ℕ → Bool
agree f g zero = true
agree f g (suc bound) = f bound == g bound && agree f g bound

pub agree_sound : (f g : ℕ → ℕ) (bound x : ℕ) → agree f g bound ≡ true → x < bound → f x ≡ g x
unfolding agree
agree_sound f g zero x h below = absurd (omega arith)
agree_sound f g (suc bound) x h below = elim (Bool-cases (x == bound)) [
  | inl t ↦ ground (arith, (==_iff x bound).0 t)
  | inr e ↦ ground (arith, agree_sound f g bound x)
]
