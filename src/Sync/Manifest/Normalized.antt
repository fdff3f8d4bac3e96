-- ===== src/Sync/Manifest/Normalized.antt =====
-- What `Normalize` promises: a manifest is accepted exactly when it is well formed, and comes back
-- with the same entries, strictly ascending by path.
use mathlib.Core.List.{Perm}
use pocket_coder.Prelude.{
  Bool, true, false, List, [], ◌∷◌, ◌≡◌, ◌≢◌, refl, ◌⊎◌, Str, length, list_eq, nat_eq, list_beq_iff,
  All, arith,
}
use pocket_coder.Map.{Map, put, has, get}
use pocket_coder.Map.Laws.{has-put}
use pocket_coder.Order.{sort}
use pocket_coder.Order.Sorting.{sort-perm, All-sort}
use pocket_coder.Order.Keyed.{DistinctBy, Ascending, sort-Ascending}
use pocket_coder.Result.{ok}
use pocket_coder.Sync.Manifest.{
  Entry, Manifest, type_file, type_symlink, valid_path, hash_length, check_entries, normalize,
  sorted, by_path,
}

abbrev pub path_of : Entry → Str
path_of e = e.path

-- An entry that may be written below the project root.
pub record IsGood (e : Entry) : Type 0 where
  pub path_ok : valid_path e.path ≡ true
  pub type_ok : (e.type ≡ type_file) ⊎ (e.type ≡ type_symlink)
  pub hash_ok : length e.hash ≡ hash_length

abbrev Fresh : Map Str Bool → List Entry → Type 0
Fresh seen = All (λ e. has e.path seen ≡ false)

-- One round of the loop, with the recursive call kept as `rest`.
check_entries-cons :
    (seen : Map Str Bool) (e : Entry) (es : List Entry)
    → check_entries seen (e ∷ es) ≡ ok tt
    → IsGood e × (has e.path seen ≡ false) × (check_entries (put e.path true seen) es ≡ ok tt)
unfolding check_entries
check_entries-cons seen e es h =
    ground (arith, list_beq_iff e.type type_file, list_beq_iff e.type type_symlink)

Fresh-put :
    (k : Str) (seen : Map Str Bool) (es : List Entry)
    → Fresh (put k true seen) es
    → Fresh seen es × All (λ e. k ≢ e.path) es
Fresh-put k seen [] h = (tt, tt)
Fresh-put k seen (e ∷ es) h =
    let r = Fresh-put k seen es h.1 in
    let head : (has e.path seen ≡ false) × (k ≢ e.path) =
      ground (arith, has-put k e.path true seen, h.0, list_beq_iff k e.path) in
    ((head.0, r.0), (head.1, r.1))

check_entries_sound :
    (seen : Map Str Bool) (es : List Entry)
    → check_entries seen es ≡ ok tt
    → All IsGood es × Fresh seen es × DistinctBy path_of es
check_entries_sound seen [] h = (tt, tt, tt)
check_entries_sound seen (e ∷ es) h =
    let now = check_entries-cons seen e es h in
    let later = check_entries_sound (put e.path true seen) es now.2 in
    let fresh = Fresh-put e.path seen es later.1 in
    ((now.0, later.0), (now.1, fresh.0), (fresh.1, later.2))

Fresh-put_back :
    (k : Str) (seen : Map Str Bool) (es : List Entry)
    → Fresh seen es
    → All (λ e. k ≢ e.path) es
    → Fresh (put k true seen) es
Fresh-put_back k seen [] h d = tt
Fresh-put_back k seen (e ∷ es) h d = (
  ground (arith, has-put k e.path true seen, h.0, d.0, list_beq_iff k e.path),
  Fresh-put_back k seen es h.1 d.1,
)

check_entries_complete :
    (seen : Map Str Bool) (es : List Entry)
    → All IsGood es
    → Fresh seen es
    → DistinctBy path_of es
    → check_entries seen es ≡ ok tt
unfolding check_entries
check_entries_complete seen [] g f d = refl
check_entries_complete seen (e ∷ es) g f d =
    let rest =
      check_entries_complete (put e.path true seen) es g.1 (Fresh-put_back e.path seen es f.1 d.0)
        d.1 in
    ground (arith, list_beq_iff e.type type_file, list_beq_iff e.type type_symlink, rest, g.0, f.0)

normalize-files :
    (m n : Manifest)
    → normalize m ≡ ok n
    → (check_entries [] m.files ≡ ok tt) × (n.files ≡ sort by_path m.files)
unfolding normalize sorted
normalize-files m n h = ground arith

Fresh-empty : (es : List Entry) → Fresh [] es
unfolding get
Fresh-empty [] = tt
Fresh-empty (e ∷ es) = (refl, Fresh-empty es)

-- A manifest that `Normalize` accepts comes back with the same entries as a permutation, every
-- entry is good, and the entries ascend strictly by path, so no path occurs twice.
pub normalize_sound :
    (m n : Manifest)
    → normalize m ≡ ok n
    → Perm n.files m.files × All IsGood n.files × Ascending path_of n.files
normalize_sound m n h =
    let r = normalize-files m n h in
    let good = check_entries_sound [] m.files r.0 in
    rw (r.1) (
      sort-perm by_path m.files,
      All-sort by_path IsGood m.files good.0,
      sort-Ascending path_of m.files good.2,
    )

-- A manifest is accepted when every entry is good and no path occurs twice.
pub normalize_complete :
    (m : Manifest)
    → All IsGood m.files
    → DistinctBy path_of m.files
    → (n : Manifest) × (normalize m ≡ ok n)
unfolding normalize
normalize_complete m g d =
    (sorted m.files, ground (arith, check_entries_complete [] m.files g (Fresh-empty m.files) d))
