-- ===== src/Map/Counting.antt =====
-- Two maps of the same size, the keys of one among those of the other, have the same keys.
use pocket_coder.Prelude.{
  suc, ◌≤◌, false, none, [], ◌∷◌, Comparable, ◌==◌, ==_refl, ◌≡◌, ◌≢◌, refl, ap, arith, length,
  Bool-cases, inl, inr,
}
use pocket_coder.Map.Defs.{Map, get, del}
use pocket_coder.Map.Laws.{DistinctKeys, get-del, del-DistinctKeys}

module _ {ℓ κ} {K : Type ℓ} {V : Type κ} ⦃e : Comparable K⦄ where
  pub del-absent : (k : K) (m : Map K V) → get k m ≡ none → del k m ≡ m
  unfolding del get
  del-absent k [] h = refl
  del-absent k ((j, v) ∷ m) h = ground (arith, del-absent k m)

  pub length-del :
      (k : K) (m : Map K V) → DistinctKeys m → get k m ≢ none → suc (length (del k m)) ≡ length m
  unfolding del get
  length-del k [] d h = absurd (h refl)
  length-del k ((j, v) ∷ m) d h = elim (Bool-cases (j == k)) [
    | inl same ↦
        let q : j ≡ k = (e.agree_iff j k).0 same in
        let gone : get k m ≡ none = rw (← q) d.0 in rw same (rw (del-absent k m gone))
    | inr other ↦ rw other (ap suc (length-del k m d.1 (rw other at h)))
  ]

  present-cons : (q : K) (w : V) (k : K) (m : Map K V) → get k m ≢ none → get k ((q, w) ∷ m) ≢ none
  unfolding get
  present-cons q w k m h z = ground arith

  apart_from : (q k : K) (m : Map K V) → get q m ≡ none → get k m ≢ none → (q == k) ≡ false
  apart_from q k m h present = elim (Bool-cases (q == k)) [
    | inl same ↦ absurd (present (let q' : q ≡ k = (e.agree_iff q k).0 same in rw (← q') h))
    | inr other ↦ other
  ]

  keys_left :
      (q : K) (w : V) (m n : Map K V)
      → get q m ≡ none
      → ((k : K) → get k ((q, w) ∷ m) ≢ none → get k n ≢ none)
      → (k : K) → get k m ≢ none
      → get k (del q n) ≢ none
  keys_left q w m n h sub k present gone =
      sub k (present-cons q w k m present)
        (ground (arith, get-del q k n, apart_from q k m h present))

  head_there : (q : K) (w : V) (m : Map K V) → get q ((q, w) ∷ m) ≢ none
  unfolding get
  head_there q w m z = ground (arith, ==_refl q)

  pub same_keys :
      (m n : Map K V) (p : K)
      → DistinctKeys m
      → DistinctKeys n
      → ((k : K) → get k m ≢ none → get k n ≢ none)
      → length n ≤ length m
      → get p m ≡ none
      → get p n ≡ none
  unfolding get
  same_keys [] [] p dm dn sub le h = refl
  same_keys [] ((j, v) ∷ n) p dm dn sub le h = absurd (omega arith)
  same_keys ((q, w) ∷ m) n p dm dn sub le h =
      let shorter = length-del q n dn (sub q (head_there q w m)) in
      ground (
        arith,
        get-del q p n,
        same_keys m (del q n) p dm.1 (del-DistinctKeys q n dn) (keys_left q w m n dm.0 sub)
            (omega arith),
      )

  pub length-le_of_keys :
      (m n : Map K V)
      → DistinctKeys m
      → DistinctKeys n
      → ((k : K) → get k m ≢ none → get k n ≢ none)
      → length m ≤ length n
  length-le_of_keys [] n dm dn sub = omega arith
  length-le_of_keys ((q, w) ∷ m) n dm dn sub = omega (
    arith,
    length-del q n dn (sub q (head_there q w m)),
    length-le_of_keys m (del q n) dm.1 (del-DistinctKeys q n dn) (keys_left q w m n dm.0 sub),
  )
