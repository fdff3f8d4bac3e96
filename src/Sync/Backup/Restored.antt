-- ===== src/Sync/Backup/Restored.antt =====
-- A backup undoes what was done to the tree since it was written.
use pocket_coder.Prelude.{ℕ, true, false, some, ◌≡◌, Str, ◌==◌, Bool, nat_eq, list_eq}
use pocket_coder.Map.{get}
use pocket_coder.Sync.Manifest.{type_symlink, Manifest}
use pocket_coder.Sync.Diff.{is_added}
use pocket_coder.Sync.Archive.{File, Tree, is_below}
use pocket_coder.Sync.Backup.{BackupEntry, Archive}
use pocket_coder.Sync.Backup.Packed.{KeepsPaths}

-- No path of the set lies below another.
abbrev pub Apart : (Str → Bool) → Type 0
Apart named = (p q : Str) → named p ≡ true → named q ≡ true → is_below p q ≡ false

-- A file of the tree that is made anew gets the mode that it has.
abbrev pub KeepsModes : (Str → ℕ → ℕ) → Tree → Type 0
KeepsModes perm tree = (p : Str) (f : File) → get p tree ≡ some f → perm f.type f.mode ≡ f.mode

module _ (digest clean : Str → Str) (perm : Str → ℕ → ℕ) (keeps : KeepsPaths clean) (tree : Tree)
    (modes : KeepsModes perm tree) where
  -- The staged files have the content that the tree had at the saved paths.
  abbrev IsUnpacked : Tree → BackupEntry → Type 0
  IsUnpacked staged be =
      (content : Str)
      → get be.path tree ≡ some (record { type = be.type; mode = be.mode; content = content })
      → is_added be.action ≡ false
      → (f : File) × (get be.path staged ≡ some f)
        × (f.content ≡ content)
        × ((f.type == type_symlink) ≡ (be.type == type_symlink))
