-- ===== src/Sync/Backup.antt =====
-- server/internal/sync/backup.go: the archive that a sync writes before it changes a tree, and what
-- undoes a sync from it. Packing an archive and unpacking it again, and JSON, are taken to give
-- back what was put in, so an archive is its entries and its members. `digest` stands for SHA-256
-- with hex, `clean` for path.Clean and `perm` for the mode of a new file under the umask.
pub mod Edits
pub mod Packed
pub mod Restored
use pocket_coder.Prelude.{
  ℕ, suc, ◌-◌, Bool, true, false, ◌&&◌, ◌||◌, not, List, [], ◌∷◌, ◌++◌, map, Option, none, some,
  Str, codes, length, drop, any, has_prefix, trim_prefix, ◌==◌, nat_eq, list_eq, if◌then◌else◌,
}
use pocket_coder.Map.{Map, get, put, del, has}
use pocket_coder.Order.{sort, str_ltb}
use pocket_coder.Result.{Result, ok, err, ◌>>=◌, ◌>>◌}
use pocket_coder.Sync.Manifest.{Entry, Manifest, index, type_file, type_symlink, valid_path}
use pocket_coder.Sync.Diff.{Op, Action, added, overwritten, deleted, other, is_added, is_deleted}
use pocket_coder.Sync.Archive.{
  can_read, File, Tree, Kind, regular, link, other_kind, Member, is_abs, obstructed,
}

pub record BackupEntry : Type 0 where
  pub path : Str
  pub action : Action
  pub mode : ℕ
  pub type : Str
  pub hash : Str

pub record Archive : Type 0 where
  pub entries : List BackupEntry
  pub members : List Member

pub data BackupError : Type 0 where
  no_source missing hash_mismatch unexpected_path unsafe_path unsafe_link not_verified :
      Str → BackupError

-- What `WriteBackup` records of one operation: an added path by its name alone.
unfoldable pub backup_entry : Map Str Entry → Op → List BackupEntry → List BackupEntry
backup_entry by_path op rest =
    if is_added op.action
    then record { path = op.path; action = added; mode = 0; type = []; hash = [] } ∷ rest
    else elim (get op.path by_path) [
      | none ↦ rest
      | some e ↦
          record { path = op.path; action = op.action; mode = e.mode; type = e.type; hash = e.hash }
          ∷ rest
    ]

unfoldable pub backup_entries : Map Str Entry → List Op → List BackupEntry
backup_entries by_path [] = []
backup_entries by_path (op ∷ ops) = backup_entry by_path op (backup_entries by_path ops)

unfoldable pub kind_of : Str → Kind
kind_of type = if type == type_symlink then link else regular

abbrev pub files_dir : Str
files_dir = codes "files/"

-- `WriteTarEntry` under the archive's directory.
unfoldable pub backup_member : BackupEntry → File → Member
backup_member be f = record {
  name = files_dir ++ be.path;
  kind = kind_of be.type;
  mode = be.mode;
  content = f.content;
}

unfoldable pub backup_members : Tree → List BackupEntry → Result BackupError (List Member)
backup_members dir [] = ok []
backup_members dir (be ∷ bes) =
    let rest = backup_members dir bes in
    if is_added be.action then rest else elim (get be.path dir) [
      | none ↦ err (no_source be.path)
      | some f ↦
          if can_read be.type f
          then (rest >>= λ ms. ok (backup_member be f ∷ ms))
          else err (no_source be.path)
    ]

unfoldable pub write_backup : Tree → Manifest → List Op → Result BackupError Archive
write_backup dir target ops = backup_members dir (backup_entries (index target) ops) >>= λ ms.
    ok (record { entries = backup_entries (index target) ops; members = ms })

-- What was unpacked so far: the files, and the hash of each.
pub record Unpacked : Type 0 where
  pub files : Tree
  pub hashes : Map Str Str

module _ (digest clean : Str → Str) (perm : Str → ℕ → ℕ) where
  -- One member, whose path below the archive's directory is `rel`.
  unfoldable pub unpack_member : Str → Member → Unpacked → Result BackupError Unpacked
  unpack_member rel h u = elim (h.kind) [
    | link ↦
        if is_abs h.content
        then err (unsafe_link rel)
        else ok (record {
          files =
              put rel
                (record {
                  type = type_symlink;
                  mode = perm type_symlink h.mode;
                  content = h.content;
                })
                u.files;
          hashes = put rel (digest h.content) u.hashes;
        })
    | regular ↦ ok (record {
      files =
          put rel
            (record { type = codes "file"; mode = perm type_file h.mode; content = h.content })
            u.files;
      hashes = put rel (digest h.content) u.hashes;
    })
    | other_kind ↦ ok u
  ]

  unfoldable pub backup_name : Member → Str
  backup_name h = clean (trim_prefix h.name (codes "./"))

  unfoldable pub unpack_named : Str → Member → Unpacked → Result BackupError Unpacked
  unpack_named name h u =
      if not (has_prefix name files_dir)
      then err (unexpected_path name)
      else if not (valid_path (trim_prefix name files_dir))
      then err (unsafe_path (trim_prefix name files_dir))
      else unpack_member (trim_prefix name files_dir) h u

  unfoldable pub unpack : List Member → Unpacked → Result BackupError Unpacked
  unpack [] u = ok u
  unpack (h ∷ hs) u = unpack_named (backup_name h) h u >>= unpack hs

  unfoldable pub check_hashes : Map Str Str → List BackupEntry → Result BackupError (Unit {0})
  check_hashes hashes [] = ok tt
  check_hashes hashes (be ∷ bes) =
      let rest = check_hashes hashes bes in
      if is_added be.action then rest else elim (get be.path hashes) [
        | none ↦ err (missing be.path)
        | some got ↦ if got == be.hash then rest else err (hash_mismatch be.path)
      ]

  -- The files of the archive, once every entry is there with its hash.
  unfoldable pub extract_backup : Archive → Result BackupError Tree
  extract_backup a = unpack a.members (record { files = []; hashes = [] }) >>= λ u.
      check_hashes u.hashes a.entries >> ok u.files

  -- `copyEntry` from the staged tree, and the check of what it wrote.
  unfoldable pub restore_file : BackupEntry → Option File → Tree → Result BackupError Tree
  restore_file be none tree = err (missing be.path)
  restore_file be (some f) tree =
      if not (can_read be.type f)
      then err (missing be.path)
      else if obstructed be.path tree
      then err (missing be.path)
      else if digest f.content == be.hash
      then ok (
          put be.path (record { type = be.type; mode = perm be.type be.mode; content = f.content })
            tree)
      else err (not_verified be.path)

  unfoldable pub restore_entry : Tree → BackupEntry → Tree → Result BackupError Tree
  restore_entry staged be tree = elim (be.action) [
    | added ↦ if obstructed be.path tree then err (missing be.path) else ok (del be.path tree)
    | overwritten ↦ restore_file be (get be.path staged) tree
    | deleted ↦ restore_file be (get be.path staged) tree
    | other s ↦ elim (get be.path tree) [
      | none ↦ err (missing be.path)
      | some f ↦ if digest f.content == be.hash then ok tree else err (not_verified be.path)
    ]
  ]

  unfoldable pub restore_entries : Tree → List BackupEntry → Tree → Result BackupError Tree
  restore_entries staged [] tree = ok tree
  restore_entries staged (be ∷ bes) tree =
      restore_entry staged be tree >>= restore_entries staged bes

  unfoldable pub restore_local : Archive → Tree → Result BackupError Tree
  restore_local a tree = extract_backup a >>= λ staged. restore_entries staged a.entries tree

-- `ApplyLocal`: each file to write comes from the staged tree, with the source's type and mode.
module _ (perm : Str → ℕ → ℕ) where
  unfoldable pub apply_file : Option Entry → Option File → Str → Tree → Result BackupError Tree
  apply_file e none p tree = err (no_source p)
  apply_file none (some f) p tree =
      if obstructed p tree
      then err (no_source p)
      else ok (put p (record { type = []; mode = perm [] 0; content = f.content }) tree)
  apply_file (some e) (some f) p tree =
      if not (can_read e.type f)
      then err (no_source p)
      else if obstructed p tree
      then err (no_source p)
      else ok
          (put p (record { type = e.type; mode = perm e.type e.mode; content = f.content }) tree)

  unfoldable pub apply_local : Tree → Map Str Entry → List Op → Tree → Result BackupError Tree
  apply_local staged source [] tree = ok tree
  apply_local staged source (op ∷ ops) tree =
      (if is_deleted op.action
        then (if obstructed op.path tree then err (no_source op.path) else ok (del op.path tree))
        else apply_file (get op.path source) (get op.path staged) op.path tree)
      >>= apply_local staged source ops

-- `ProjectSlug`, byte by byte.
unfoldable pub slug_byte : ℕ → ℕ
slug_byte c = if c == b'/' || (c == b'\\' || (c == b':' || c == b' ')) then b'-' else c

unfoldable pub project_slug : Str → Str
project_slug project = map slug_byte project
