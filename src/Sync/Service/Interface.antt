-- ===== src/Sync/Service/Interface.antt =====
-- The project container as the sync sees it (`ContainerIO` in server/internal/sync/container.go), and
-- what its commands are relied on for: `tar` and `rm` touch the named paths alone, and do what they
-- are told where they succeed.
use pocket_coder.Prelude.{
  false, List, none, some, ◌≡◌, Str, any, All, ◌==◌, nat_eq, list_eq, ◌⊎◌, true,
}
use pocket_coder.Map.{get, has}
use pocket_coder.Result.{Result, ok}
use pocket_coder.Sync.Manifest.{type_symlink, Manifest}
use pocket_coder.Sync.Errors.{SyncError}
use pocket_coder.Sync.Archive.{is_link, File, Tree, other_kind, Member}

-- `tree` holds the files that a manifest covers. A failed upload or removal may have done a part.
pub record Container (W : Type 0) : Type 0 where
  pub tree : W → Tree
  pub manifest : W → Result SyncError Manifest
  pub git : W → Result SyncError (Str × Str)
  pub read_tar : W → List Str → List Member
  pub upload : W → Tree → Result SyncError (Unit {0}) × W
  pub remove : W → List Str → Result SyncError (Unit {0}) × W

-- The file has the member's content, and is a link where the member is one.
pub record IsHeld (h : Member) (f : File) : Type 0 where
  pub content : f.content ≡ h.content
  pub linked : (f.type == type_symlink) ≡ is_link h.kind

-- A member of the container's archive that is a file or a link is what the tree has under its name.
abbrev pub IsRead : (Member → Str) → Tree → Member → Type 0
IsRead name t h = (h.kind ≡ other_kind) ⊎ ((f : File) × (get (name h) t ≡ some f) × IsHeld h f)

pub record IsFaithful {W : Type 0} (name : Member → Str) (c : Container W) : Type 0 where
  pub reads : (w : W) (ps : List Str) → All (IsRead name (c.tree w)) (c.read_tar w ps)
  pub upload_other :
      (w : W) (fs : Tree) (p : Str)
      → has p fs ≡ false
      → get p (c.tree (c.upload w fs).1) ≡ get p (c.tree w)
  pub upload_done :
      (w : W) (fs : Tree) (p : Str) (f : File)
      → (c.upload w fs).0 ≡ ok tt
      → get p fs ≡ some f
      → get p (c.tree (c.upload w fs).1) ≡ some f
  pub remove_other :
      (w : W) (ps : List Str) (p : Str)
      → any (λ q. q == p) ps ≡ false
      → get p (c.tree (c.remove w ps).1) ≡ get p (c.tree w)
  pub remove_done :
      (w : W) (ps : List Str) (p : Str)
      → (c.remove w ps).0 ≡ ok tt
      → any (λ q. q == p) ps ≡ true
      → get p (c.tree (c.remove w ps).1) ≡ none
