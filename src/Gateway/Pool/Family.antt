-- ===== src/Gateway/Pool/Family.antt =====
-- internal/paymentgateway/client.go: what the workers of the pool come to together.
use expense_management.Prelude.{ℕ, zero, suc, ◌+◌, ◌≤◌, ◌<◌, ◌≡◌, refl, ◌⊎◌, inl, inr, arith}
use expense_management.Gateway.Pool.{update}

module _ {A : Type 0} (f : A → ℕ) where
  abbrev pub total : ℕ → (ℕ → A) → ℕ
  total zero g = 0
  total (suc n) g = f (g n) + total n g

  total-update_outside :
      (n : ℕ) (g : ℕ → A) (i : ℕ) (a : A) → n ≤ i → total n (update g i a) ≡ total n g
  total-update_outside zero g i a h = refl
  total-update_outside (suc n) g i a h = ground (arith, total-update_outside n g i a)

  pub total-update :
      (n : ℕ) (g : ℕ → A) (i : ℕ) (a : A)
      → i < n
      → total n (update g i a) + f (g i) ≡ total n g + f a
  total-update zero g i a h = ground arith
  total-update (suc n) g i a h = ground (arith, total-update n g i a, total-update_outside n g i a)

  -- Nobody counts, or somebody does.
  pub total-cases : (n : ℕ) (g : ℕ → A) → (total n g ≡ 0) ⊎ ((i : ℕ) × (i < n) × (0 < f (g i)))
  total-cases zero g = inl refl
  total-cases (suc n) g = elim (total-cases n g) [
    | inr (i, below, counts) ↦ inr (i, omega (arith, below), counts)
    | inl none_below ↦ last (f (g n)) refl none_below
  ]
    where
      last :
          (k : ℕ)
          → k ≡ f (g n)
          → total n g ≡ 0
          → (total (suc n) g ≡ 0) ⊎ ((i : ℕ) × (i < suc n) × (0 < f (g i)))
      last zero e z = inl (omega (arith, e, z))
      last (suc k) e z = inr (n, omega arith, omega (arith, e))
