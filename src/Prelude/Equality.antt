-- ===== src/Prelude/Equality.antt =====
-- Go's `comparable` constraint: the types whose values `==` compares, as an interface.
use Prim.Native.Nat.{ℕ}
use mathlib.Core.Bool.{Bool, true, false, ◌&&◌}
use mathlib.Core.List.{List, [], ◌∷◌}
use mathlib.Core.Logic.{◌↔◌}
use mathlib.Core.Path.{◌≡◌}
use native.Mathlib.Omega.{arith}
use pocket_coder.Prelude.Tests.{◌==◌ as nat_beq, ==_iff as nat_beq_iff}

pub record Comparable {ℓ} (K : Type ℓ) : Type ℓ where
  pub agree : K → K → Bool
  pub agree_iff : (x y : K) → (agree x y ≡ true) ↔ (x ≡ y)

instance abbrev pub nat_eq : Comparable ℕ
nat_eq = record { agree = nat_beq; agree_iff = nat_beq_iff }

module _ {ℓ} {K : Type ℓ} ⦃c : Comparable K⦄ where
  infix 50 ◌==◌
  -- Go's operator, at every comparable type.
  abbrev pub ◌==◌ : K → K → Bool
  x == y = c.agree x y

  pub ==_iff : (x y : K) → ((x == y) ≡ true) ↔ (x ≡ y)
  ==_iff x y = c.agree_iff x y

  pub ==_refl : (x : K) → (x == x) ≡ true
  ==_refl x = (c.agree_iff x x).1 (λ i. x)

  -- Two lists agree when they have the same length and agree at each place.
  unfoldable pub list_beq : List K → List K → Bool
  list_beq [] [] = true
  list_beq (x ∷ xs) (y ∷ ys) = c.agree x y && list_beq xs ys
  list_beq _ _ = false

  pub list_beq_iff : (xs ys : List K) → (list_beq xs ys ≡ true) ↔ (xs ≡ ys)
  unfolding list_beq
  list_beq_iff [] [] = ground arith
  list_beq_iff [] (y ∷ ys) = ground arith
  list_beq_iff (x ∷ xs) [] = ground arith
  list_beq_iff (x ∷ xs) (y ∷ ys) = ground (arith, c.agree_iff x y, list_beq_iff xs ys)

instance abbrev pub list_eq {ℓ} : {K : Type ℓ} ⦃c : Comparable K⦄ → Comparable (List K)
list_eq = record { agree = list_beq; agree_iff = list_beq_iff }
