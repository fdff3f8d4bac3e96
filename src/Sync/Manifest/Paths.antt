-- ===== src/Sync/Manifest/Paths.antt =====
-- A path that `ValidPath` accepts names one place below the root and outside `.git`. The
-- description it is held against walks the path segment by segment.
use pocket_coder.Prelude.{
  true, false, ◌||◌, List, [], ◌∷◌, Option, none, some, ◌≡◌, ◌≢◌, refl, Str, codes, split,
  split-head, has_prefix, any, ◌==◌, if◌then◌else◌, nat_eq, list_eq, list_beq_iff, arith, inl, inr,
}
use mathlib.Core.List.{reverse, reverse_aux, head?}
use pocket_coder.Sync.Manifest.{valid_path, is_bad_segment, git_dir}

-- Where a walk along `segs` ends, as a list of directory names, from the directory `here`
-- (innermost name first); `none` when it climbs above the root.
abbrev climb : List Str → List Str
climb here = elim here [ [] ↦ [] | _ ∷ above ↦ above ]

unfoldable pub resolve : List Str → List Str → Option (List Str)
resolve here [] = some here
resolve here (seg ∷ segs) =
    let stay = resolve here segs in
    let down = resolve (seg ∷ here) segs in
    let up = resolve (climb here) segs in
    if seg == [] || seg == codes "."
    then stay
    else if seg == codes ".."
    then (if here == [] then none else up)
    else down

resolve-good :
    (here segs : List Str)
    → any is_bad_segment segs ≡ false
    → resolve here segs ≡ some (reverse_aux segs here)
unfolding resolve
resolve-good here [] h = refl
resolve-good here (seg ∷ segs) h = ground (arith, resolve-good (seg ∷ here) segs)

segments-good : (p : Str) → valid_path p ≡ true → any is_bad_segment (split b'/' p) ≡ false
unfolding valid_path
segments-good p h = ground arith

not-git : (p : Str) → valid_path p ≡ true → (p ≢ git_dir) × (has_prefix p (codes ".git/") ≡ false)
unfolding valid_path
not-git p h = ground (arith, list_beq_iff p git_dir)

outside_git : (p : Str) → valid_path p ≡ true → head? (split b'/' p) ≢ some git_dir
outside_git p h e = elim (split-head b'/' p git_dir e) [
  | inl whole ↦ (not-git p h).0 whole
  | inr before ↦ cc ((not-git p h).1)
]

-- Walking from the root along a path that `ValidPath` accepts never climbs: the walk goes down one
-- directory for each segment and ends at exactly those names (innermost first). The first of them
-- is not `.git`.
pub valid_path-stays_inside :
    (p : Str)
    → valid_path p ≡ true
    → (resolve [] (split b'/' p) ≡ some (reverse (split b'/' p)))
      × (head? (split b'/' p) ≢ some git_dir)
valid_path-stays_inside p h = (resolve-good [] (split b'/' p) (segments-good p h), outside_git p h)
