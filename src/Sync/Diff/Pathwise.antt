-- ===== src/Sync/Diff/Pathwise.antt =====
-- What `Diff` plans for each path, whatever the order in which the maps are walked.
use pocket_coder.Prelude.{
  true, List, [], ◌∷◌, ◌++◌, Option, none, some, ◌≡◌, ◌≢◌, refl, ap, ◌∙◌, Str, ◌==◌, ==_refl,
  list_eq, nat_eq, list_beq_iff, All, arith, Bool-cases, inl, inr, if◌then◌else◌,
}
use pocket_coder.Map.{Map, get, put, has}
use pocket_coder.Map.Laws.{DistinctKeys, put-DistinctKeys}
use pocket_coder.Order.Keyed.{
  DistinctBy, Ascending, sort-Ascending, find_key, find_key-sort, find_key-append,
  DistinctBy-append,
}
use pocket_coder.Sync.Manifest.{Entry, Manifest, index, index_from}
use pocket_coder.Sync.Diff.{
  Op, added, overwritten, deleted, differs, diff_source, diff_target, diff,
}

abbrev pub op_path : Op → Str
op_path op = op.path

-- The operation due at a path, from the two trees' entries there.
abbrev pub planned : Str → Option Entry → Option Entry → Option Op
planned p none none = none
planned p none (some te) = some (record { path = p; action = deleted })
planned p (some se) none = some (record { path = p; action = added })
planned p (some se) (some te) =
    if differs se te then some (record { path = p; action = overwritten }) else none

index_from-DistinctKeys :
    (out : Map Str Entry) (es : List Entry) → DistinctKeys out → DistinctKeys (index_from out es)
unfolding index_from
index_from-DistinctKeys out [] h = h
index_from-DistinctKeys out (e ∷ es) h =
    index_from-DistinctKeys (put e.path e out) es (put-DistinctKeys e.path e out h)

pub index-DistinctKeys : (m : Manifest) → DistinctKeys (index m)
unfolding index
index-DistinctKeys m = index_from-DistinctKeys [] m.files tt

module _ (dst : Map Str Entry) where
  abbrev from_source : Str → Option Entry → Option Op
  from_source p none = none
  from_source p (some se) = planned p (some se) (get p dst)

  find-diff_source :
      (p : Str) (src : Map Str Entry)
      → DistinctKeys src
      → find_key op_path p (diff_source dst src) ≡ from_source p (get p src)
  unfolding find_key diff_source get
  find-diff_source p [] d = refl
  find-diff_source p ((q, se) ∷ src) d = elim (Bool-cases (q == p)) [
    | inl same ↦
        let e : q ≡ p = (list_beq_iff q p).0 same in
        let gone : get p src ≡ none = rw (← e) d.0 in
        ground (arith, find-diff_source p src d.1, gone, ==_refl p)
    | inr other ↦ ground (arith, find-diff_source p src d.1)
  ]

  diff_source-absent :
      (p : Str) (src : Map Str Entry)
      → get p src ≡ none
      → All (λ op. p ≢ op.path) (diff_source dst src)
  unfolding diff_source get
  diff_source-absent p [] h = tt
  diff_source-absent p ((q, se) ∷ src) h =
      ground (arith, diff_source-absent p src, list_beq_iff q p)

  diff_source-DistinctBy :
      (src : Map Str Entry) → DistinctKeys src → DistinctBy op_path (diff_source dst src)
  unfolding diff_source
  diff_source-DistinctBy [] d = tt
  diff_source-DistinctBy ((q, se) ∷ src) d =
      ground (arith, diff_source-absent q src d.0, diff_source-DistinctBy src d.1)

  -- The first loop names only paths of the source.
  diff_source-has :
      (all src : Map Str Entry)
      → ((p : Str) → get p src ≢ none → has p all ≡ true)
      → All (λ op. has op.path all ≡ true) (diff_source dst src)
  unfolding diff_source get
  diff_source-has all [] sub = tt
  diff_source-has all ((q, se) ∷ src) sub = ground (
    arith,
    diff_source-has all src (λ p h. sub p (ground arith)),
    sub q (ground (arith, ==_refl q)),
  )

module _ (src : Map Str Entry) where
  abbrev from_target : Str → Option Entry → Option Op
  from_target p none = none
  from_target p (some te) = elim (get p src) [
    | none ↦ some (record { path = p; action = deleted })
    | some _ ↦ none
  ]

  find-diff_target :
      (p : Str) (dst : Map Str Entry)
      → DistinctKeys dst
      → find_key op_path p (diff_target src dst) ≡ from_target p (get p dst)
  unfolding find_key diff_target get
  find-diff_target p [] d = refl
  find-diff_target p ((q, te) ∷ dst) d = elim (Bool-cases (q == p)) [
    | inl same ↦
        let e : q ≡ p = (list_beq_iff q p).0 same in
        let gone : get p dst ≡ none = rw (← e) d.0 in
        ground (arith, find-diff_target p dst d.1, gone, ==_refl p)
    | inr different ↦ ground (arith, find-diff_target p dst d.1)
  ]

  diff_target-absent :
      (p : Str) (dst : Map Str Entry)
      → get p dst ≡ none
      → All (λ op. p ≢ op.path) (diff_target src dst)
  unfolding diff_target get
  diff_target-absent p [] h = tt
  diff_target-absent p ((q, te) ∷ dst) h =
      ground (arith, diff_target-absent p dst, list_beq_iff q p)

  diff_target-DistinctBy :
      (dst : Map Str Entry) → DistinctKeys dst → DistinctBy op_path (diff_target src dst)
  unfolding diff_target
  diff_target-DistinctBy [] d = tt
  diff_target-DistinctBy ((q, te) ∷ dst) d =
      ground (arith, diff_target-absent q dst d.0, diff_target-DistinctBy dst d.1)

  -- The second loop names no path of the source.
  diff_target-fresh :
      (p : Str) (dst : Map Str Entry)
      → has p src ≡ true
      → All (λ op. p ≢ op.path) (diff_target src dst)
  unfolding diff_target
  diff_target-fresh p [] h = tt
  diff_target-fresh p ((q, te) ∷ dst) h = elim (Bool-cases (has q src)) [
    | inl there ↦ rw there (diff_target-fresh p dst h)
    | inr gone ↦ rw gone ((λ e. cc (ap (λ (k : Str). has k src) e)), diff_target-fresh p dst h)
  ]

  apart :
      (ops : List Op) (dst : Map Str Entry)
      → All (λ op. has op.path src ≡ true) ops
      → All (λ x. All (λ y. x.path ≢ y.path) (diff_target src dst)) ops
  apart [] dst h = tt
  apart (op ∷ ops) dst h = (diff_target-fresh op.path dst h.0, apart ops dst h.1)

present : (p : Str) (m : Map Str Entry) → get p m ≢ none → has p m ≡ true
present p m h = ground arith

module _ (source target : Manifest) where
  unsorted : List Op
  unsorted = diff_source (index target) (index source) ++ diff_target (index source) (index target)

  unsorted-DistinctBy : DistinctBy op_path unsorted
  unfolding unsorted
  unsorted-DistinctBy =
      let src = index source in
      let dst = index target in
      DistinctBy-append op_path (diff_source dst src) (diff_target src dst)
        (diff_source-DistinctBy dst src (index-DistinctKeys source))
        (diff_target-DistinctBy src dst (index-DistinctKeys target))
        (apart src (diff_source dst src) dst (diff_source-has dst src src (λ p. present p src)))

  -- Looking any path up among the operations of `Diff` gives the operation that the two entries at
  -- that path call for, and nothing when they agree in hash, mode and type.
  pub find-diff :
      (p : Str)
      → find_key op_path p (diff source target)
        ≡ planned p (get p (index source)) (get p (index target))
  unfolding diff unsorted
  find-diff p =
      let src = index source in
      let dst = index target in
      find_key-sort op_path p unsorted unsorted-DistinctBy
      ∙ find_key-append op_path p (diff_source dst src) (diff_target src dst)
      ∙ ground (
        arith,
        find-diff_source dst p src (index-DistinctKeys source),
        find-diff_target src p dst (index-DistinctKeys target),
      )

  -- The operations ascend strictly by path, so each path has one operation at most.
  pub diff-Ascending : Ascending op_path (diff source target)
  unfolding diff unsorted
  diff-Ascending = sort-Ascending op_path unsorted unsorted-DistinctBy
