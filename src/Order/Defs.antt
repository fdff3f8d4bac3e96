-- ===== src/Order/Defs.antt =====
-- `s < t` on Go strings compares bytes; `sort` is an insertion sort over the `less` function.
use pocket_coder.Prelude.{Bool, true, false, List, [], ◌∷◌, Str, ltb, if◌then◌else◌}

unfoldable pub str_ltb : Str → Str → Bool
str_ltb [] [] = false
str_ltb [] (y ∷ ys) = true
str_ltb (x ∷ xs) [] = false
str_ltb (x ∷ xs) (y ∷ ys) =
    let rest = str_ltb xs ys in if ltb x y then true else if ltb y x then false else rest

module _ {ℓ} {A : Type ℓ} (less : A → A → Bool) where
  unfoldable pub insert : A → List A → List A
  insert x [] = x ∷ []
  insert x (y ∷ ys) = let rest = insert x ys in if less x y then x ∷ y ∷ ys else y ∷ rest

  unfoldable pub sort : List A → List A
  unfolding insert
  sort [] = []
  sort (x ∷ xs) = insert x (sort xs)
