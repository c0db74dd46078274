-- ===== src/Prelude/Outcome.antt =====
-- The result of a routine that runs on fuel: it ends with a value, it reports failure, or it was
-- still running when the fuel ran out.
use mathlib.Core.Logic.{◌⊎◌, inl, inr}
use mathlib.Core.Path.{◌≡◌, refl}

pub data Outcome {ℓ} (A : Type ℓ) : Type ℓ where
  done : A → Outcome A
  failed : Outcome A
  running : Outcome A

infixl 5 ◌>>=◌
abbrev pub ◌>>=◌ {ℓ κ} : {A : Type ℓ} {B : Type κ} → Outcome A → (A → Outcome B) → Outcome B
done a >>= f = f a
failed >>= f = failed
running >>= f = running

-- Inversion of a bind that ended with a value.
pub bind-eq-done {ℓ κ} :
    {A : Type ℓ} {B : Type κ} (m : Outcome A) (f : A → Outcome B) {b : B}
    → (m >>= f) ≡ done b
    → (a : A) × (m ≡ done a) × (f a ≡ done b)
bind-eq-done (done a) f h = (a, refl, h)
bind-eq-done failed f h = cc
bind-eq-done running f h = cc

pub Outcome-cases {ℓ} :
    {A : Type ℓ} (o : Outcome A) → (o ≡ failed) ⊎ ((o ≡ running) ⊎ ((a : A) × (o ≡ done a)))
Outcome-cases failed = inl refl
Outcome-cases running = inr (inl refl)
Outcome-cases (done a) = inr (inr (a, refl))
