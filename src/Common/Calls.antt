-- ===== src/Common/Calls.antt =====
-- What a Go call that may panic or run on comes to.
use mathlib.Core.Path.{◌≡◌, refl}
use mathlib.Core.Logic.{◌⊎◌, inl, inr}

-- A Go call: it returns, panics, or goes on past the fuel.
pub data Outcome {ℓ} (A : Type ℓ) : Type ℓ where
  returns : A → Outcome A
  panics : Outcome A
  runs_on : Outcome A

pub Outcome-cases {ℓ} :
    {A : Type ℓ} → (o : Outcome A) → ((a : A) × (o ≡ returns a)) ⊎ ((o ≡ panics) ⊎ (o ≡ runs_on))
Outcome-cases (returns a) = inl (a, refl)
Outcome-cases panics = inr (inl refl)
Outcome-cases runs_on = inr (inr refl)
