-- ===== src/Order/Keyed.antt =====
-- Sorting by a string key, when the keys are distinct: the result ascends strictly, and looking an
-- element up by its key finds the same element as before.
use pocket_coder.Prelude.{
  Bool, true, List, [], ◌∷◌, ◌++◌, Option, none, some, ◌≡◌, ◌≢◌, refl, ap, Str, ◌==◌, list_eq,
  nat_eq, list_beq_iff, All, All-append, arith, Bool-cases, inl, inr, if◌then◌else◌,
}
use pocket_coder.Order.Defs.{insert, sort, str_ltb}
use pocket_coder.Order.Strings.{str_ltb_irrefl, str_ltb_trans, str_ltb_total}
use pocket_coder.Order.Sorting.{All-insert, All-sort}

module _ {ℓ} {A : Type ℓ} (key : A → Str) where
  abbrev pub less : A → A → Bool
  less x y = str_ltb (key x) (key y)

  -- The first element with the key.
  unfoldable pub find_key : Str → List A → Option A
  find_key k [] = none
  find_key k (x ∷ xs) = if key x == k then some x else find_key k xs

  abbrev pub DistinctBy : List A → Type 0
  DistinctBy [] = Unit
  DistinctBy (x ∷ xs) = All (λ y. key x ≢ key y) xs × DistinctBy xs

  abbrev pub Ascending : List A → Type 0
  Ascending [] = Unit
  Ascending (x ∷ xs) = All (λ y. str_ltb (key x) (key y) ≡ true) xs × Ascending xs

  below :
      (x y : A) (ys : List A)
      → str_ltb (key x) (key y) ≡ true
      → All (λ z. str_ltb (key y) (key z) ≡ true) ys
      → All (λ z. str_ltb (key x) (key z) ≡ true) ys
  below x y [] h hs = tt
  below x y (z ∷ zs) h hs = (str_ltb_trans (key x) (key y) (key z) h hs.0, below x y zs h hs.1)

  insert-Ascending :
      (x : A) (xs : List A)
      → All (λ y. key x ≢ key y) xs
      → Ascending xs
      → Ascending (insert less x xs)
  unfolding insert
  insert-Ascending x [] d h = (tt, tt)
  insert-Ascending x (y ∷ ys) d h = elim (Bool-cases (less x y)) [
    | inl lt ↦ rw lt ((lt, below x y ys lt h.0), h)
    | inr ge ↦ elim (Bool-cases (less y x)) [
      | inl gt ↦ rw ge (
        All-insert less (λ z. str_ltb (key y) (key z) ≡ true) x ys gt h.0,
        insert-Ascending x ys d.1 h.1,
      )
      | inr le ↦ absurd (d.0 (str_ltb_total (key x) (key y) ge le))
    ]
  ]

  pub sort-Ascending : (xs : List A) → DistinctBy xs → Ascending (sort less xs)
  unfolding sort
  sort-Ascending [] d = tt
  sort-Ascending (x ∷ xs) d =
      insert-Ascending x (sort less xs) (All-sort less (λ y. key x ≢ key y) xs d.0)
        (sort-Ascending xs d.1)

  find_key-insert :
      (k : Str) (x : A) (xs : List A)
      → All (λ y. key x ≢ key y) xs
      → find_key k (insert less x xs) ≡ (if key x == k then some x else find_key k xs)
  unfolding find_key insert
  find_key-insert k x [] d = refl
  find_key-insert k x (y ∷ ys) d =
      ground (arith, find_key-insert k x ys, list_beq_iff (key x) k, list_beq_iff (key y) k)

  pub find_key-sort :
      (k : Str) (xs : List A) → DistinctBy xs → find_key k (sort less xs) ≡ find_key k xs
  unfolding find_key sort
  find_key-sort k [] d = refl
  find_key-sort k (x ∷ xs) d = ground (
    arith,
    find_key-insert k x (sort less xs) (All-sort less (λ y. key x ≢ key y) xs d.0),
    find_key-sort k xs d.1,
  )

  pub find_key-append :
      (k : Str) (xs ys : List A)
      → find_key k (xs ++ ys) ≡ elim (find_key k xs) [ none ↦ find_key k ys | some x ↦ some x ]
  unfolding find_key
  find_key-append k [] ys = refl
  find_key-append k (x ∷ xs) ys = ground (arith, find_key-append k xs ys)

  pub DistinctBy-append :
      (xs ys : List A)
      → DistinctBy xs
      → DistinctBy ys
      → All (λ x. All (λ y. key x ≢ key y) ys) xs
      → DistinctBy (xs ++ ys)
  DistinctBy-append [] ys dx dy h = dy
  DistinctBy-append (x ∷ xs) ys dx dy h =
      (All-append (λ y. key x ≢ key y) xs ys dx.0 h.0, DistinctBy-append xs ys dx.1 dy h.1)

  pub find_key-absent : (k : Str) (xs : List A) → All (λ y. k ≢ key y) xs → find_key k xs ≡ none
  unfolding find_key
  find_key-absent k [] h = refl
  find_key-absent k (x ∷ xs) h = ground (arith, find_key-absent k xs, list_beq_iff (key x) k)

  apart_from :
      (x : A) (xs : List A)
      → All (λ y. str_ltb (key x) (key y) ≡ true) xs
      → All (λ y. key x ≢ key y) xs
  apart_from x [] h = tt
  apart_from x (y ∷ ys) h = (
    (λ e. cc (ap (λ (k : Str). str_ltb (key x) k) e, h.0, str_ltb_irrefl (key x))),
    apart_from x ys h.1,
  )

  pub Ascending-DistinctBy : (xs : List A) → Ascending xs → DistinctBy xs
  Ascending-DistinctBy [] h = tt
  Ascending-DistinctBy (x ∷ xs) h = (apart_from x xs h.0, Ascending-DistinctBy xs h.1)

  found-cons :
      (x : A) (xs ys : List A)
      → All (λ y. key x ≢ key y) ys
      → All (λ y. find_key (key y) xs ≡ some y) ys
      → All (λ y. find_key (key y) (x ∷ xs) ≡ some y) ys
  unfolding find_key
  found-cons x xs [] d h = tt
  found-cons x xs (y ∷ ys) d h =
      (ground (arith, list_beq_iff (key x) (key y), d.0, h.0), found-cons x xs ys d.1 h.1)

  -- Every element is found under its own key.
  pub find_key_self : (xs : List A) → DistinctBy xs → All (λ x. find_key (key x) xs ≡ some x) xs
  unfolding find_key
  find_key_self [] d = tt
  find_key_self (x ∷ xs) d =
      (ground (arith, list_beq_iff (key x) (key x)), found-cons x xs xs d.0 (find_key_self xs d.1))
