-- ===== src/Prelude/Branches.antt =====
-- A property of what a test or an optional value decides, from the property of each branch.
use mathlib.Core.Path.{◌≡◌, refl}
use mathlib.Core.Bool.{Bool, true, false}
use mathlib.Core.Option.{Option, none, some}
use pocket_coder.Prelude.Tests.{if◌then◌else◌}

module _ {ℓ κ} {R : Type ℓ} (P : R → Type κ) where
  pub if-branches :
      (b : Bool) (x y : R) → (b ≡ true → P x) → (b ≡ false → P y) → P (if b then x else y)
  if-branches true x y hx hy = hx refl
  if-branches false x y hx hy = hy refl

  pub option-branches {μ} :
      {B : Type μ} (o : Option B) (x : R) (f : B → R)
      → (o ≡ none → P x)
      → ((b : B) → o ≡ some b → P (f b))
      → P (elim o as (λ _. R) [ none ↦ x | some b ↦ f b ])
  option-branches none x f hx hf = hx refl
  option-branches (some b) x f hx hf = hf b refl
