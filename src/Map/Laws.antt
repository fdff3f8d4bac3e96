-- ===== src/Map/Laws.antt =====
-- The laws of maps, in `if` form, and that the operations keep the keys distinct.
use pocket_coder.Prelude.{
  none, some, [], ◌∷◌, Comparable, ◌==◌, ◌||◌, ==_refl, if◌then◌else◌, ◌≡◌, refl, arith, Bool-cases,
  inl, inr,
}
use pocket_coder.Map.Defs.{Map, get, put, del, has}

module _ {ℓ κ} {K : Type ℓ} {V : Type κ} ⦃e : Comparable K⦄ where
  pub get-put :
      (k j : K) (v : V) (m : Map K V) → get j (put k v m) ≡ (if k == j then some v else get j m)
  unfolding get put
  get-put k j v [] = refl
  get-put k j v ((i, w) ∷ m) =
      ground (arith, e.agree_iff k j, e.agree_iff i k, e.agree_iff i j, get-put k j v m)

  pub get-del : (k j : K) (m : Map K V) → get j (del k m) ≡ (if k == j then none else get j m)
  unfolding get del
  get-del k j [] = ground arith
  get-del k j ((i, w) ∷ m) =
      ground (arith, e.agree_iff k j, e.agree_iff i k, e.agree_iff i j, get-del k j m)

  pub get-put_self : (k : K) (v : V) (m : Map K V) → get k (put k v m) ≡ some v
  get-put_self k v m = ground (arith, get-put k k v m, ==_refl k)

  pub get-del_self : (k : K) (m : Map K V) → get k (del k m) ≡ none
  get-del_self k m = ground (arith, get-del k k m, ==_refl k)

  pub has-put : (k j : K) (v : V) (m : Map K V) → has j (put k v m) ≡ (k == j || has j m)
  has-put k j v m = ground (arith, get-put k j v m)

  -- No key has two entries.
  abbrev pub DistinctKeys : Map K V → Type κ
  DistinctKeys [] = Unit
  DistinctKeys ((k, v) ∷ m) = (get k m ≡ none) × DistinctKeys m

  pub put-DistinctKeys : (k : K) (v : V) (m : Map K V) → DistinctKeys m → DistinctKeys (put k v m)
  unfolding put get
  put-DistinctKeys k v [] h = (refl, tt)
  put-DistinctKeys k v ((j, w) ∷ m) h = elim (Bool-cases (j == k)) [
    | inl same ↦ rw same (let q : j ≡ k = (e.agree_iff j k).0 same in (rw (← q) h.0, h.1))
    | inr other ↦ rw other (
      ground (arith, get-put k j v m, h.0, e.agree_iff k j, e.agree_iff j k),
      put-DistinctKeys k v m h.1,
    )
  ]

  pub del-DistinctKeys : (k : K) (m : Map K V) → DistinctKeys m → DistinctKeys (del k m)
  unfolding del get
  del-DistinctKeys k [] h = tt
  del-DistinctKeys k ((j, w) ∷ m) h = elim (Bool-cases (j == k)) [
    | inl same ↦ rw same (del-DistinctKeys k m h.1)
    | inr other ↦ rw other (ground (arith, get-del k j m, h.0), del-DistinctKeys k m h.1)
  ]

pub ruleset map_laws = (get-put, get-del)
