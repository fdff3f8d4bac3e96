-- ===== src/Sync/Archive.antt =====
-- server/internal/sync/tar.go: staging the members of an archive against the entries of a manifest.
-- A tree holds files by their paths; the content of a link is its target. `digest` stands for
-- SHA-256 with hex, `clean` for path.Clean, and `perm` for the mode of a new file of a type that is
-- made with a mode: less the umask for a file, and the system's own for a link.
pub mod Staged
use pocket_coder.Prelude.{
  ◌++◌, ℕ, Bool, true, false, ◌&&◌, ◌||◌, not, List, [], ◌∷◌, Option, none, some, Str, codes,
  length, has_prefix, trim_prefix, ◌==◌, nat_eq, list_eq, if◌then◌else◌,
}
use pocket_coder.Map.{Map, get, put, has}
use pocket_coder.Result.{Result, ok, err, ◌>>=◌, ◌>>◌}
use pocket_coder.Sync.Manifest.{Entry, type_file, type_symlink, index_from, valid_path}
use pocket_coder.Sync.Errors.{SyncError, bad_payload, io}

pub record File : Type 0 where
  pub type : Str
  pub mode : ℕ
  pub content : Str

abbrev pub Tree : Type 0
Tree = Map Str File

-- `q` is a path below `p`, as below a directory.
unfoldable pub is_below : Str → Str → Bool
is_below p q = has_prefix q (p ++ codes "/")

-- A file stands above or below the path, so that none can be made there: a directory that holds a
-- file is not replaced, and a file holds none. A link above the path, which the code follows, counts
-- as a file here.
unfoldable pub obstructed : Str → Tree → Bool
obstructed p [] = false
obstructed p ((q, f) ∷ tree) = is_below p q || (is_below q p || obstructed p tree)

-- The type flag of a tar header.
pub data Kind : Type 0 where
  regular link other_kind : Kind

pub record Member : Type 0 where
  pub name : Str
  pub kind : Kind
  pub mode : ℕ
  pub content : Str

-- Reading a file for an entry of a type: os.Readlink fails on what is no link.
unfoldable pub can_read : Str → File → Bool
can_read type f = not (type == type_symlink) || f.type == type_symlink

abbrev pub is_link : Kind → Bool
is_link link = true
is_link _ = false

abbrev pub is_regular : Kind → Bool
is_regular regular = true
is_regular _ = false

-- `filepath.IsAbs`
abbrev pub is_abs : Str → Bool
is_abs p = has_prefix p (codes "/")

module _ (digest : Str → Str) (perm : Str → ℕ → ℕ) where
  -- The error is the text of the member's error.
  unfoldable pub write_tar_member : Entry → Member → Result Str File
  write_tar_member e h =
      let written : File = record {
        type = e.type;
        mode = perm e.type e.mode;
        content = h.content;
      } in
      if e.type == type_symlink
      then (if not (is_link h.kind) || is_abs h.content
          then err (codes "changed type")
          else ok written)
      else if not (is_regular h.kind)
      then err (codes "changed type")
      else if not (length h.content == e.size) || not (digest h.content == e.hash)
      then err (codes "did not match its manifest hash")
      else ok written

-- The caller of a strict copy sent the archive and gets a coded error.
unfoldable pub member_error : Bool → Str → SyncError
member_error strict text = if strict then bad_payload text else io text

unfoldable pub check_missing : Bool → Tree → Map Str Entry → Result SyncError (Unit {0})
check_missing strict staged [] = ok tt
check_missing strict staged ((p, e) ∷ want) =
    let rest = check_missing strict staged want in
    if has p staged then rest else err (member_error strict (codes "missing files"))

module _ (digest clean : Str → Str) (perm : Str → ℕ → ℕ) where
  unfoldable pub member_name : Member → Str
  member_name h = clean (trim_prefix h.name (codes "./"))

  -- The members that were seen are the ones staged.
  unfoldable pub copy_members : Bool → Map Str Entry → Tree → List Member → Result SyncError Tree
  copy_members strict want staged [] = ok staged
  copy_members strict want staged (h ∷ hs) = elim (get (member_name h) want) [
    | none ↦
        if strict
        then err (bad_payload (codes "unexpected path"))
        else copy_members strict want staged hs
    | some e ↦
        if has (member_name h) staged || not (valid_path (member_name h))
        then err (bad_payload (codes "unexpected path"))
        else if obstructed (member_name h) staged
        then err (member_error strict (codes "not a directory"))
        else elim (write_tar_member digest perm e h) [
          | err text ↦ err (member_error strict text)
          | ok f ↦ copy_members strict want (put (member_name h) f staged) hs
        ]
  ]

  unfoldable pub copy_tar_members : Bool → List Entry → List Member → Result SyncError Tree
  copy_tar_members strict entries members =
      copy_members strict (index_from [] entries) [] members >>= λ staged.
      check_missing strict staged (index_from [] entries) >> ok staged
