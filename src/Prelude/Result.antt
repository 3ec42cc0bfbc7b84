-- ===== src/Prelude/Result.antt =====
-- `std::expected<A, E>`.
use mathlib.Core.Path.{◌≡◌, refl}
use mathlib.Core.Logic.{◌⊎◌, inl, inr}

pub data Expected {ℓ κ} (E : Type ℓ) (A : Type κ) : Type (ℓ ⊔ κ) where
  expected : A → Expected E A
  unexpected : E → Expected E A

infixl 5 ◌>>=◌
abbrev pub ◌>>=◌ {ℓ κ μ} :
    {E : Type ℓ} {A : Type κ} {B : Type μ} → Expected E A → (A → Expected E B) → Expected E B
expected a >>= f = f a
unexpected e >>= f = unexpected e

-- To split on a computed result and keep the equation.
pub Expected-cases {ℓ κ} :
    {E : Type ℓ} {A : Type κ} (x : Expected E A)
    → ((e : E) × (x ≡ unexpected e)) ⊎ ((a : A) × (x ≡ expected a))
Expected-cases (unexpected e) = inl (e, refl)
Expected-cases (expected a) = inr (a, refl)
