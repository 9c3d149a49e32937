-- ===== src/Base/Descent.antt =====
-- Relations along which two measures descend, the first before the second.
use mathlib.Core.WellFounded.{Acc}
use mathlib.Core.Path.{◌≡◌}
use mathlib.Core.Logic.{◌⊎◌, inl, inr}
use native.Mathlib.Omega.{arith}
use Prim.Native.Nat.{ℕ, zero, suc, ◌<◌}

module _ {A : Type 0} (R : A → A → Type 0) (f g : A → ℕ)
    (descends : (s t : A) → R s t → (f t < f s) ⊎ ((f t ≡ f s) × (g t < g s))) where
  -- By induction on the second measure, where `ih` is the claim for less of the first.
  ends_below :
      (n : ℕ)
      → ((t : A) → f t < n → Acc (λ t s. R s t) t)
      → (m : ℕ) → (s : A) → f s < suc n
      → g s < m
      → Acc (λ t s. R s t) s
  ends_below n ih zero s h k = absurd (omega arith)
  ends_below n ih (suc m) s h k = Acc.intro s λ t st. elim (descends s t st) [
    | inl lt ↦ ih t (omega arith)
    | inr (e, lt) ↦ ends_below n ih m t (omega arith) (omega arith)
  ]

  ends : (n : ℕ) (s : A) → f s < n → Acc (λ t s. R s t) s
  ends zero s h = absurd (omega arith)
  ends (suc n) s h = ends_below n (ends n) (suc (g s)) s h (omega arith)

  pub descent-Acc : (s : A) → Acc (λ t s. R s t) s
  descent-Acc s = ends (suc (f s)) s (omega arith)
