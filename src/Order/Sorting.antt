-- ===== src/Order/Sorting.antt =====
-- What sorting keeps and what it gives: the elements, as a permutation, and the order.
use mathlib.Core.List.{Perm}
use mathlib.Core.List.Perm
use pocket_coder.Prelude.{Bool, true, false, List, [], ◌∷◌, ◌≡◌, All, Bool-cases, inl, inr}
use pocket_coder.Order.Defs.{insert, sort}

module _ {ℓ} {A : Type ℓ} (less : A → A → Bool) where
  pub insert-perm : (x : A) (xs : List A) → Perm (insert less x xs) (x ∷ xs)
  unfolding insert
  insert-perm x [] = Perm.refl _
  insert-perm x (y ∷ ys) = elim (Bool-cases (less x y)) [
    | inl lt ↦ rw lt (Perm.refl _)
    | inr ge ↦ rw ge (Perm.trans (Perm.cons y (insert-perm x ys)) (Perm.swap x y ys))
  ]

  pub sort-perm : (xs : List A) → Perm (sort less xs) xs
  unfolding sort
  sort-perm [] = Perm.refl _
  sort-perm (x ∷ xs) = Perm.trans (insert-perm x (sort less xs)) (Perm.cons x (sort-perm xs))

  -- Each element is not above any later one.
  abbrev pub IsSorted : List A → Type ℓ
  IsSorted [] = Unit
  IsSorted (x ∷ xs) = All (λ y. less y x ≡ false) xs × IsSorted xs

  pub All-insert {κ} :
      (P : A → Type κ) (x : A) (xs : List A) → P x → All P xs → All P (insert less x xs)
  unfolding insert
  All-insert P x [] h hs = (h, tt)
  All-insert P x (y ∷ ys) h hs = elim (Bool-cases (less x y)) [
    | inl lt ↦ rw lt (h, hs)
    | inr ge ↦ rw ge (hs.0, All-insert P x ys h hs.1)
  ]

  pub All-sort {κ} : (P : A → Type κ) (xs : List A) → All P xs → All P (sort less xs)
  unfolding sort
  All-sort P [] h = tt
  All-sort P (x ∷ xs) h = All-insert P x (sort less xs) h.0 (All-sort P xs h.1)

  module _ (asym : (x y : A) → less x y ≡ true → less y x ≡ false)
      (cotrans : (x y z : A) → less y x ≡ false → less z y ≡ false → less z x ≡ false) where
    above :
        (x y : A) (ys : List A)
        → less y x ≡ false
        → All (λ z. less z y ≡ false) ys
        → All (λ z. less z x ≡ false) ys
    above x y [] h hs = tt
    above x y (z ∷ ys) h hs = (cotrans x y z h hs.0, above x y ys h hs.1)

    pub insert-IsSorted : (x : A) (xs : List A) → IsSorted xs → IsSorted (insert less x xs)
    unfolding insert
    insert-IsSorted x [] h = (tt, tt)
    insert-IsSorted x (y ∷ ys) h = elim (Bool-cases (less x y)) [
      | inl lt ↦ rw lt ((asym x y lt, above x y ys (asym x y lt) h.0), h)
      | inr ge ↦ rw ge (All-insert (λ z. less z y ≡ false) x ys ge h.0, insert-IsSorted x ys h.1)
    ]

    pub sort-IsSorted : (xs : List A) → IsSorted (sort less xs)
    unfolding sort
    sort-IsSorted [] = tt
    sort-IsSorted (x ∷ xs) = insert-IsSorted x (sort less xs) (sort-IsSorted xs)
