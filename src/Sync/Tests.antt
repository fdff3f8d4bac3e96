-- ===== src/Sync/Tests.antt =====
-- Work Sync on small inputs: two trees and their difference, and one code from its generation to
-- the end of its session.
use mathlib.Core.List.{Perm, reverse, head?}
use pocket_coder.Prelude.{
  ℕ, zero, suc, ◌+◌, false, [], ◌∷◌, some, ◌≡◌, ◌≢◌, ◌↔◌, refl, Str, codes, All, length, split,
  has_byte, nat_eq, list_eq, list_beq, arith, has_prefix, inl,
}
use pocket_coder.Map.{get, put}
use pocket_coder.Order.{sort, str_ltb, insert}
use pocket_coder.Order.Keyed.{Ascending}
use pocket_coder.Result.{ok}
use pocket_coder.Sync.Manifest.{Entry, Manifest, index, type_file, valid_path, normalize, git_dir}
use pocket_coder.Sync.Manifest.Paths.{resolve, valid_path-stays_inside}
use pocket_coder.Sync.Manifest.Normalized.{IsGood, path_of, normalize_sound, normalize_complete}
use pocket_coder.Sync.Diff.{
  added, overwritten, deleted, diff, counts, transfer_set, existing_entries, compare,
}
use pocket_coder.Sync.Diff.Applied.{Agrees, apply_ops, apply_ops-diff}
use pocket_coder.Sync.Diff.Compared.{compare_iff}
use pocket_coder.Sync.Diff.Counted.{counts-diff}

-- Sixty-four hexadecimal digits, all the same.
hash_of : ℕ → Str
hash_of c = go 64
  where
    go : ℕ → Str
    go zero = []
    go (suc n) = c ∷ go n

file : Str → ℕ → Entry
file p c = record { path = p; size = 1; mode = 420; type = type_file; hash = hash_of c }

abbrev laptop : Manifest
laptop = record { files = file (codes "src/b.go") b'1' ∷ file (codes "a.txt") b'2' ∷ [] }

abbrev server : Manifest
server = record { files = file (codes "a.txt") b'3' ∷ file (codes "old") b'4' ∷ [] }

plan_test :
    diff laptop server
    ≡ record { path = codes "a.txt"; action = overwritten }
      ∷ record { path = codes "old"; action = deleted }
      ∷ record { path = codes "src/b.go"; action = added }
      ∷ []
unfolding diff index get put sort insert str_ltb list_beq file hash_of
plan_test = refl

dots_refused : valid_path (codes "a/../b") ≡ false
unfolding valid_path split list_beq has_prefix has_byte
dots_refused = refl

valid_path-stays_inside_example :
    (resolve [] (split b'/' (codes "src/b.go")) ≡ some (reverse (split b'/' (codes "src/b.go"))))
    × (head? (split b'/' (codes "src/b.go")) ≢ some git_dir)
unfolding valid_path split list_beq has_prefix has_byte
valid_path-stays_inside_example = valid_path-stays_inside (codes "src/b.go") refl

abbrev laptop_sorted : Manifest
laptop_sorted = record { files = file (codes "a.txt") b'2' ∷ file (codes "src/b.go") b'1' ∷ [] }

normalize_test : normalize laptop ≡ ok laptop_sorted
unfolding normalize get put sort insert str_ltb list_beq file hash_of valid_path split has_prefix
    has_byte
normalize_test = refl

normalize_sound_example :
    Perm laptop_sorted.files laptop.files
    × All IsGood laptop_sorted.files
    × Ascending path_of laptop_sorted.files
normalize_sound_example = normalize_sound laptop laptop_sorted normalize_test

laptop-IsGood : All IsGood laptop.files
unfolding file hash_of valid_path split list_beq has_prefix has_byte
laptop-IsGood = (
  record { path_ok = refl; type_ok = inl refl; hash_ok = refl },
  (record { path_ok = refl; type_ok = inl refl; hash_ok = refl }, tt),
)

paths_differ : ◌≢◌ {A = Str} (codes "src/b.go") (codes "a.txt")
paths_differ e = ground arith

normalize_complete_example : (n : Manifest) × (normalize laptop ≡ ok n)
unfolding file
normalize_complete_example = normalize_complete laptop laptop-IsGood ((paths_differ, tt), (tt, tt))

apply_ops-diff_example :
    Agrees
      (get (codes "old") (apply_ops (index laptop) (diff laptop server) (index server)))
      (get (codes "old") (index laptop))
apply_ops-diff_example = apply_ops-diff laptop server (codes "old")

compare_iff_example :
    (compare laptop server ≡ ok tt)
    ↔ ((p : Str) → Agrees (get p (index laptop)) (get p (index server)))
compare_iff_example = compare_iff laptop server

counts-diff_example :
    let ops = diff laptop server in
    ((counts ops).add + (counts ops).overwrite ≡ length (transfer_set laptop ops))
    × ((counts ops).overwrite + (counts ops).delete ≡ length (existing_entries server ops))
    × ((counts ops).add + (counts ops).overwrite + (counts ops).delete ≡ length ops)
counts-diff_example = counts-diff laptop server
