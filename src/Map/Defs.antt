-- ===== src/Map/Defs.antt =====
-- The operations of a Go map: `m[k]`, `m[k] = v`, `delete(m, k)`, and the `ok` of `v, ok := m[k]`.
use pocket_coder.Prelude.{
  Bool, true, false, Option, none, some, List, [], ◌∷◌, Comparable, ◌==◌, if◌then◌else◌,
}

abbrev pub Map {ℓ κ} : Type ℓ → Type κ → Type (ℓ ⊔ κ)
Map K V = List (K × V)

module _ {ℓ κ} {K : Type ℓ} {V : Type κ} ⦃e : Comparable K⦄ where
  unfoldable pub get : K → Map K V → Option V
  get k [] = none
  get k ((j, v) ∷ m) = if j == k then some v else get k m

  -- An entry that is there keeps its place, as the order of a map is not observed.
  unfoldable pub put : K → V → Map K V → Map K V
  put k v [] = (k, v) ∷ []
  put k v ((j, w) ∷ m) = if j == k then (k, v) ∷ m else (j, w) ∷ put k v m

  unfoldable pub del : K → Map K V → Map K V
  del k [] = []
  del k ((j, v) ∷ m) = let rest = del k m in if j == k then rest else (j, v) ∷ rest

  -- `m[k]` on a key that may be missing gives the zero value.
  abbrev pub get_or : K → V → Map K V → V
  get_or k zero_value m = elim (get k m) [ none ↦ zero_value | some v ↦ v ]

  abbrev pub has : K → Map K V → Bool
  has k m = elim (get k m) [ none ↦ false | some v ↦ true ]
