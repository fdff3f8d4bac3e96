-- ===== src/Sync/Manifest.antt =====
-- server/internal/sync/manifest.go: the covered working tree of one side.
pub mod Paths
pub mod Normalized
use pocket_coder.Prelude.{
  ℕ, ◌*◌, Bool, true, false, ◌&&◌, ◌||◌, not, List, [], ◌∷◌, Str, codes, split, has_prefix,
  has_byte, any, length, ltb, ◌==◌, if◌then◌else◌, nat_eq, list_eq,
}
use pocket_coder.Map.{Map, get, put, has}
use pocket_coder.Order.{sort, str_ltb}
use pocket_coder.Result.{Result, ok, err}

-- The two types that a manifest may name.
abbrev pub type_file : Str
type_file = codes "file"

abbrev pub type_symlink : Str
type_symlink = codes "symlink"

-- `size` is an int64 that no operation of the package computes with.
pub record Entry : Type 0 where
  pub path : Str
  pub size : ℕ
  pub mode : ℕ
  pub type : Str
  pub hash : Str

pub record Manifest : Type 0 where
  pub files : List Entry

-- `out[e.Path] = e` for each entry in turn, so the last of two entries for a path wins.
unfoldable pub index_from : Map Str Entry → List Entry → Map Str Entry
index_from out [] = out
index_from out (e ∷ es) = index_from (put e.path e out) es

unfoldable pub index : Manifest → Map Str Entry
unfolding index_from
index m = index_from [] m.files

abbrev pub git_dir : Str
git_dir = codes ".git"

abbrev pub is_bad_segment : Str → Bool
is_bad_segment seg = seg == [] || (seg == codes "." || seg == codes "..")

unfoldable pub valid_path : Str → Bool
valid_path p =
    if p == [] || (ltb 1024 (length p) || (has_prefix p (codes "/") || has_byte 0 p))
    then false
    else if p == git_dir || has_prefix p (codes ".git/")
    then false
    else not (any is_bad_segment (split b'/' p))

pub data NormalizeError : Type 0 where
  invalid_path invalid_hash duplicate_path : Str → NormalizeError
  invalid_type : Str → Str → NormalizeError

-- `sha256.Size * 2`
abbrev pub hash_length : ℕ
hash_length = 32 * 2

-- The loop of `Normalize` over the entries and the set `seen`.
unfoldable pub check_entries : Map Str Bool → List Entry → Result NormalizeError (Unit {0})
check_entries seen [] = ok tt
check_entries seen (e ∷ es) =
    let rest = check_entries (put e.path true seen) es in
    if not (valid_path e.path)
    then err (invalid_path e.path)
    else if not (e.type == type_file) && not (e.type == type_symlink)
    then err (invalid_type e.type e.path)
    else if not (length e.hash == hash_length)
    then err (invalid_hash e.path)
    else if has e.path seen
    then err (duplicate_path e.path)
    else rest

abbrev pub by_path : Entry → Entry → Bool
by_path a b = str_ltb a.path b.path

sorted : List Entry → Manifest
sorted es = record { files = sort by_path es }

-- `Normalize` sorts the files in place; on an error they stay as they are.
unfoldable pub normalize : Manifest → Result NormalizeError Manifest
unfolding check_entries sorted
normalize m = elim (check_entries [] m.files) [ err e ↦ err e | ok _ ↦ ok (sorted m.files) ]
