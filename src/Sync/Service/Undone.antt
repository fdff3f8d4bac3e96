-- ===== src/Sync/Service/Undone.antt =====
-- The rollback of an upload, with the backup that the same upload wrote.
use pocket_coder.Prelude.{
  ℕ, List, [], ◌∷◌, none, some, ◌≡◌, refl, sym, ◌∙◌, ap, subst, Str, All, ◌⊎◌, inl, inr, ◌==◌,
  ==_refl, nat_eq, list_eq, arith, Bool-cases,
}
use pocket_coder.Map.{Map, get, put}
use pocket_coder.Map.Laws.{get-put, get-del}
use pocket_coder.Result.{ok, ◌>>=◌, ◌>>◌}
use pocket_coder.Sync.Manifest.{Entry, Manifest, index}
use pocket_coder.Sync.Diff.{Op}
use pocket_coder.Sync.Archive.{Tree}
use pocket_coder.Sync.Backup.{
  BackupEntry, Archive, Unpacked, backup_entries, write_backup, unpack, check_hashes,
  extract_backup,
}
use pocket_coder.Sync.Backup.Edits.{
  Describes, Saved, new_path, old_path, IsPlanned, backup_entries-Saved,
}
use pocket_coder.Sync.Backup.Packed.{
  KeepsPaths, Good, empty-Good, Saved-Packed, saved_content, check_hashes-Saved, not-added,
}
use pocket_coder.Sync.Service.RolledBack.{IsOld}
use pocket_coder.Sync.Service.{
  staged_entries, del_names, dropped_backups, archive_names, keep_archive,
}

module _ (digest clean : Str → Str) (perm : Str → ℕ → ℕ) (keeps : KeepsPaths clean)
    (tree : Tree) where
  staged_entries-IsOld :
      (u : Unpacked) (bes : List BackupEntry)
      → Good digest clean perm keeps tree u
      → All (Saved digest tree) bes
      → All (IsOld tree u.files) (staged_entries bes)
  unfolding staged_entries
  staged_entries-IsOld u [] good h = tt
  staged_entries-IsOld u (be ∷ bes) good (new_path new gone, h) =
      rw new (staged_entries-IsOld u bes good h)
  staged_entries-IsOld u (be ∷ bes) good (old_path act content there hashed safe relative, h) =
      rw (not-added digest clean perm keeps tree be.action act) (
        (λ f e.
            let c =
              saved_content digest clean perm keeps tree u be.path content f _ good e there refl in
            there
            ∙ ap (λ (x : Str). some (record { type = be.type; mode = be.mode; content = x }))
                (sym c.0)),
        staged_entries-IsOld u bes good h,
      )

  -- The archive of a backup stages again what it saved.
  pub extract_backup-IsOld :
      (source : Map Str Entry) (server : Manifest) (ops : List Op) (a : Archive)
      → Describes digest (index server) tree
      → All (IsPlanned source (index server)) ops
      → write_backup tree server ops ≡ ok a
      → (staged : Tree) × (extract_backup digest clean perm a ≡ ok staged)
        × All (IsOld tree staged) (staged_entries a.entries)
        × (a.entries ≡ backup_entries (index server) ops)
  unfolding write_backup extract_backup
  extract_backup-IsOld source server ops a d due h =
      let bes = backup_entries (index server) ops in
      let (saved, paths) = backup_entries-Saved digest source (index server) tree d ops due in
      let k = Saved-Packed digest clean perm keeps tree bes saved in
      let (u, unpacked, good, grows, all) =
        k.unpacks (record { files = []; hashes = [] }) (empty-Good digest clean perm keeps tree) in
      let packed : Archive = record { entries = bes; members = k.members } in
      let is : packed ≡ a = (let z = rw (k.packs) at h in cc) in
      subst
        (λ (b : Archive).
          (staged : Tree) × ((unpack digest clean perm b.members
                (record { files = []; hashes = [] })
              >>= λ v. check_hashes digest clean perm v.hashes b.entries >> ok v.files)
            ≡ ok staged)
          × All (IsOld tree staged) (staged_entries b.entries)
          × (b.entries ≡ bes))
        is
        (
          u.files,
          rw (unpacked, check_hashes-Saved digest clean perm keeps tree u bes good saved all) refl,
          staged_entries-IsOld u bes good saved,
          refl,
        )

-- An archive that is kept may be among those pruned at once, by its name.
get-del_names :
    (path : Str) (ns : List Str) (m : Map Str Archive)
    → (get path (del_names ns m) ≡ none) ⊎ (get path (del_names ns m) ≡ get path m)
unfolding del_names
get-del_names path [] m = inr refl
get-del_names path (n ∷ ns) m = elim (Bool-cases (n == path)) [
  | inl same ↦ inl (ground (arith, get-del n path (del_names ns m)))
  | inr apart ↦ elim (get-del_names path ns m) [
    | inl gone ↦ inl (ground (arith, get-del n path (del_names ns m), gone))
    | inr kept ↦ inr (ground (arith, get-del n path (del_names ns m), kept))
  ]
]

pub get-keep_archive :
    (path : Str) (a b : Archive) (m : Map Str Archive)
    → get path (keep_archive path a m) ≡ some b
    → a ≡ b
unfolding keep_archive
get-keep_archive path a b m h =
    elim (get-del_names path (dropped_backups 10 (archive_names (put path a m))) (put path a m)) [
      | inl gone ↦ absurd (cc (gone, h))
      | inr kept ↦
          let is : some a ≡ some b = ground (arith, get-put path path a m, ==_refl path, kept, h) in
          cc
    ]
