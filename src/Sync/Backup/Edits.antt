-- ===== src/Sync/Backup/Edits.antt =====
-- What the entries of a backup say of the tree that was backed up.
use pocket_coder.Prelude.{
  arith, Bool, true, false, ◌||◌, List, [], ◌∷◌, Option, none, some, ◌≡◌, refl, sym, ◌∙◌, ap, Str,
  any, All, ◌⊎◌, inl, inr, ◌==◌, nat_eq, list_eq, Bool-cases,
}
use pocket_coder.Map.{Map, get}
use pocket_coder.Order.Keyed.{find_key, find_key_self, Ascending-DistinctBy}
use pocket_coder.Sync.Manifest.{Entry, Manifest, index, valid_path, type_symlink}
use pocket_coder.Sync.Diff.{Op, added, overwritten, deleted, diff, differs}
use pocket_coder.Sync.Diff.Pathwise.{op_path, planned, find-diff, diff-Ascending}
use pocket_coder.Sync.Archive.{File, can_read, Tree, is_abs}
use pocket_coder.Sync.Backup.{BackupEntry, backup_entry, backup_entries}

-- A file of the type and mode that the entry names, with its hash, at a path that is safe.
pub record IsFile (digest : Str → Str) (tree : Tree) (p : Str) (e : Entry) : Type 0 where
  pub content : Str
  pub here : get p tree ≡ some (record { type = e.type; mode = e.mode; content = content })
  pub hashed : digest content ≡ e.hash
  pub safe : valid_path p ≡ true
  pub relative : (e.type == type_symlink) ≡ true → is_abs content ≡ false

-- The manifest names exactly the files of the tree.
pub record Describes (digest : Str → Str) (m : Map Str Entry) (tree : Tree) : Type 0 where
  pub there : (p : Str) (e : Entry) → get p m ≡ some e → IsFile digest tree p e
  pub gone : (p : Str) → get p m ≡ none → get p tree ≡ none

-- The same content, both read as links or both as files.
pub record IsAlike (g f : File) : Type 0 where
  pub same_content : g.content ≡ f.content
  pub same_link : (g.type == type_symlink) ≡ (f.type == type_symlink)

pub can_read-IsAlike :
    (type : Str) (f : File)
    → (f.type == type_symlink) ≡ (type == type_symlink)
    → can_read type f ≡ true
unfolding can_read
can_read-IsAlike type f h = ground (arith, h)

-- What a backup entry says of the tree.
pub data Saved (digest : Str → Str) (tree : Tree) (be : BackupEntry) : Type 0 where
  new_path : be.action ≡ added → get be.path tree ≡ none → Saved digest tree be
  old_path :
      (be.action ≡ overwritten) ⊎ (be.action ≡ deleted)
      → (content : Str)
      → get be.path tree ≡ some (record { type = be.type; mode = be.mode; content = content })
      → digest content ≡ be.hash
      → valid_path be.path ≡ true
      → ((be.type == type_symlink) ≡ true → is_abs content ≡ false)
      → Saved digest tree be

-- The action that is due at a path says whether the target has it.
pub planned-action :
    (op : Op) (s t : Option Entry)
    → planned op.path s t ≡ some op
    → ((t ≡ none) × (op.action ≡ added))
      ⊎ ((e : Entry) × (t ≡ some e) × ((op.action ≡ overwritten) ⊎ (op.action ≡ deleted)))
planned-action op none none h = cc
planned-action op none (some te) h = inr (te, refl, inr (cc))
planned-action op (some se) none h = inl (refl, cc)
planned-action op (some se) (some te) h = elim (Bool-cases (differs se te)) [
  | inl yes' ↦ inr (te, refl, inl (let z = rw yes' at h in cc))
  | inr no' ↦ absurd (let z = rw no' at h in cc)
]

abbrev pub IsPlanned : Map Str Entry → Map Str Entry → Op → Type 0
IsPlanned source target op = planned op.path (get op.path source) (get op.path target) ≡ some op

map-IsPlanned :
    (source target : Manifest) (ops : List Op)
    → All (λ op. find_key op_path op.path (diff source target) ≡ some op) ops
    → All (IsPlanned (index source) (index target)) ops
map-IsPlanned source target [] h = tt
map-IsPlanned source target (op ∷ ops) h =
    (sym (find-diff source target op.path) ∙ h.0, map-IsPlanned source target ops h.1)

pub diff-IsPlanned :
    (source target : Manifest) → All (IsPlanned (index source) (index target)) (diff source target)
diff-IsPlanned source target = map-IsPlanned source target (diff source target) (
    find_key_self op_path (diff source target)
      (Ascending-DistinctBy op_path (diff source target) (diff-Ascending source target)))

module _ (digest : Str → Str) (source target : Map Str Entry) (tree : Tree)
    (d : Describes digest target tree) where
  backup_entry-Saved :
      (op : Op) (rest : List BackupEntry)
      → IsPlanned source target op
      → All (Saved digest tree) rest
      → All (Saved digest tree) (backup_entry target op rest)
        × ((p : Str)
            → any (λ be. be.path == p) (backup_entry target op rest)
              ≡ (op.path == p || any (λ be. be.path == p) rest))
  unfolding backup_entry
  backup_entry-Saved op rest due h =
      elim (planned-action op (get op.path source) (get op.path target) due) [
        | inl new ↦ rw (new.1) ((new_path refl (d.gone op.path new.0), h), λ p. refl)
        | inr (e, there, inl over) ↦
            let f = d.there op.path e there in
            rw (over, there)
              ((old_path (inl over) f.content f.here f.hashed f.safe f.relative, h), λ p. refl)
        | inr (e, there, inr del) ↦
            let f = d.there op.path e there in
            rw (del, there)
              ((old_path (inr del) f.content f.here f.hashed f.safe f.relative, h), λ p. refl)
      ]

  -- Every entry of the backup of planned operations says what is in the tree, and the backup has
  -- the paths of the operations.
  pub backup_entries-Saved :
      (ops : List Op)
      → All (IsPlanned source target) ops
      → All (Saved digest tree) (backup_entries target ops)
        × ((p : Str)
            → any (λ be. be.path == p) (backup_entries target ops) ≡ any (λ op. op.path == p) ops)
  unfolding backup_entries
  backup_entries-Saved [] h = (tt, λ p. refl)
  backup_entries-Saved (op ∷ ops) h =
      let rest = backup_entries-Saved ops h.1 in
      let here = backup_entry-Saved op (backup_entries target ops) h.0 rest.0 in
      (here.0, λ p. here.1 p ∙ ap (λ (b : Bool). op.path == p || b) (rest.1 p))
