-- ===== src/Sync/Backup/Packed.antt =====
-- Writing a backup of a tree and unpacking it again gives the saved files.
use pocket_coder.Prelude.{
  ℕ, subst, list_beq, true, false, List, [], ◌∷◌, ◌++◌, some, ◌≡◌, refl, sym, ◌∙◌, ap, Str, codes,
  All, ◌⊎◌, inl, inr, has_prefix, trim_prefix-other, trim_prefix-append, ◌==◌, ==_refl, nat_eq,
  list_eq, list_beq_iff, arith, Bool-cases, Option-cases,
}
use pocket_coder.Map.{get, put, has}
use pocket_coder.Map.Laws.{get-put, has-put}
use pocket_coder.Result.{ok}
use pocket_coder.Sync.Manifest.{valid_path, type_file, type_symlink}
use pocket_coder.Sync.Diff.{Action, added, overwritten, deleted, is_added}
use pocket_coder.Sync.Archive.{File, Tree, Member, is_abs}
use pocket_coder.Sync.Backup.{
  BackupEntry, Unpacked, kind_of, files_dir, backup_member, backup_members, unpack_member,
  backup_name, unpack_named, unpack, check_hashes,
}
use pocket_coder.Sync.Backup.Edits.{IsAlike, can_read-IsAlike, Saved, new_path, old_path}

-- `path.Clean` leaves the archive's own paths as they are.
abbrev pub KeepsPaths : (Str → Str) → Type 0
KeepsPaths clean = (p : Str) → valid_path p ≡ true → clean (files_dir ++ p) ≡ files_dir ++ p

module _ (digest clean : Str → Str) (perm : Str → ℕ → ℕ) (keeps : KeepsPaths clean)
    (tree : Tree) where
  -- What is unpacked has the content that the tree has there, and its hash.
  abbrev pub Good : Unpacked → Type 0
  Good u =
      (p : Str) (f : File)
      → get p u.files ≡ some f
      → (get p u.hashes ≡ some (digest f.content))
        × (g : File) × (get p tree ≡ some g)
        × IsAlike g f

  abbrev pub Grows : Unpacked → Unpacked → Type 0
  Grows u v = (p : Str) → has p u.files ≡ true → has p v.files ≡ true

  backup_name-member :
      (be : BackupEntry) (f : File)
      → valid_path be.path ≡ true
      → backup_name digest clean perm (backup_member be f) ≡ files_dir ++ be.path
  unfolding backup_name backup_member has_prefix
  backup_name-member be f safe =
      ap clean (trim_prefix-other (files_dir ++ be.path) (codes "./") refl) ∙ keeps be.path safe

  pub empty-Good : Good (record { files = []; hashes = [] })
  unfolding get
  empty-Good p f h = cc

  put_file : Str → File → Unpacked → Unpacked
  put_file p f u = record { files = put p f u.files; hashes = put p (digest f.content) u.hashes }

  put_file-Good :
      (p : Str) (f g : File) (u : Unpacked)
      → get p tree ≡ some g
      → IsAlike g f
      → Good u
      → Good (put_file p f u)
  unfolding put_file
  put_file-Good p f g u there same good q h found = elim (Bool-cases (p == q)) [
    | inl here ↦
        let e : p ≡ q = (list_beq_iff p q).0 here in
        let is : f ≡ h = ground (arith, get-put p q f u.files) in
        (
          ground (
            arith,
            get-put p q (digest f.content) u.hashes,
            ap (λ (x : File). digest x.content) is,
          ),
          g,
          rw (← e) there,
          subst (IsAlike g) is same,
        )
    | inr apart ↦
        let old = good q h (ground (arith, get-put p q f u.files)) in
        (ground (arith, get-put p q (digest f.content) u.hashes, old.0), old.1, old.2, old.3)
  ]

  file_not_link : (codes "file" == type_symlink) ≡ false
  unfolding list_beq
  file_not_link = refl

  -- The file that a saved entry's member unpacks to.
  unpack_member-saved :
      (be : BackupEntry) (content : Str) (u : Unpacked) (f : File)
      → f.content ≡ content
      → ((be.type == type_symlink) ≡ true → is_abs content ≡ false)
      → (g : File) × (g.content ≡ content)
        × ((g.type == type_symlink) ≡ (be.type == type_symlink))
        × (unpack_member digest clean perm be.path (backup_member be f) u
            ≡ ok (put_file be.path g u))
  unfolding unpack_member backup_member kind_of put_file
  unpack_member-saved be content u f same relative = elim (Bool-cases (be.type == type_symlink)) [
    | inl linked ↦ (
      record { type = type_symlink; mode = perm type_symlink be.mode; content = f.content },
      same,
      ==_refl type_symlink ∙ sym linked,
      rw (linked) (ground (arith, same, relative linked)),
    )
    | inr plain ↦ (
      record { type = codes "file"; mode = perm type_file be.mode; content = f.content },
      same,
      file_not_link ∙ sym plain,
      rw plain refl,
    )
  ]

  unpack_named-saved :
      (be : BackupEntry) (h : Member) (u v : Unpacked)
      → valid_path be.path ≡ true
      → unpack_member digest clean perm be.path h u ≡ ok v
      → unpack_named digest clean perm (files_dir ++ be.path) h u ≡ ok v
  unfolding unpack_named has_prefix
  unpack_named-saved be h u v safe e = rw (trim_prefix-append files_dir be.path, safe) e

  -- One saved entry that is not new, packed and unpacked.
  old_member :
      (be : BackupEntry) (content : Str) (u : Unpacked) (f : File)
      → f.content ≡ content
      → get be.path tree ≡ some f
      → (f.type == type_symlink) ≡ (be.type == type_symlink)
      → valid_path be.path ≡ true
      → ((be.type == type_symlink) ≡ true → is_abs content ≡ false)
      → Good u
      → (v : Unpacked) × (unpack_named digest clean perm
            (backup_name digest clean perm (backup_member be f))
            (backup_member be f)
            u
          ≡ ok v)
        × Good v
        × Grows u v
        × (has be.path v.files ≡ true)
  unfolding put_file
  old_member be content u f same there linked safe relative good =
      let m = unpack_member-saved be content u f same relative in
      let v = put_file be.path m.0 u in
      (
        v,
        rw (backup_name-member be f safe) (unpack_named-saved be (backup_member be f) u v safe m.3),
        put_file-Good be.path m.0 f u there
            (record { same_content = same ∙ sym m.1; same_link = linked ∙ sym m.2 }) good,
        λ p h. ground (arith, has-put be.path p m.0 u.files),
        ground (arith, has-put be.path be.path m.0 u.files, ==_refl be.path),
      )

  pub record Packed (bes : List BackupEntry) : Type 0 where
    pub members : List Member
    pub packs : backup_members tree bes ≡ ok members
    pub unpacks :
        (u : Unpacked)
        → Good u
        → (v : Unpacked) × (unpack digest clean perm members u ≡ ok v)
          × Good v
          × Grows u v
          × All (λ be. is_added be.action ≡ false → has be.path v.files ≡ true) bes

  Packed-nil : Packed []
  unfolding backup_members unpack
  Packed-nil = record {
    members = [];
    packs = refl;
    unpacks = λ u good. (u, refl, good, (λ p h. h), tt);
  }

  pub Packed-new :
      (be : BackupEntry) (bes : List BackupEntry)
      → be.action ≡ added
      → Packed bes
      → Packed (be ∷ bes)
  unfolding backup_members
  Packed-new be bes new k = record {
    members = k.members;
    packs = rw new k.packs;
    unpacks = λ u good.
        let (v, e, g, grows, all) = k.unpacks u good in (v, e, g, grows, ((λ z. cc), all));
  }

  Packed-old :
      (be : BackupEntry) (bes : List BackupEntry) (content : Str) (f : File)
      → is_added be.action ≡ false
      → f.content ≡ content
      → get be.path tree ≡ some f
      → (f.type == type_symlink) ≡ (be.type == type_symlink)
      → valid_path be.path ≡ true
      → ((be.type == type_symlink) ≡ true → is_abs content ≡ false)
      → Packed bes
      → Packed (be ∷ bes)
  unfolding backup_members unpack
  Packed-old be bes content f old same there linked safe relative k = record {
    members = backup_member be f ∷ k.members;
    packs = rw (old, there, can_read-IsAlike be.type f linked, k.packs) refl;
    unpacks = λ u good.
        let (v, e, g, grows, here) =
          old_member be content u f same there linked safe relative good in
        let (w, e', g', grows', all) = k.unpacks v g in
        (w, rw e e', g', (λ p h. grows' p (grows p h)), ((λ z. grows' be.path here), all));
  }

  pub not-added : (a : Action) → (a ≡ overwritten) ⊎ (a ≡ deleted) → is_added a ≡ false
  not-added a (inl e) = rw e refl
  not-added a (inr e) = rw e refl

  pub Saved-Packed : (bes : List BackupEntry) → All (Saved digest tree) bes → Packed bes
  Saved-Packed [] h = Packed-nil
  Saved-Packed (be ∷ bes) (new_path new gone, h) = Packed-new be bes new (Saved-Packed bes h)
  Saved-Packed (be ∷ bes) (old_path act content there hashed safe relative, h) =
      Packed-old be bes content _ (not-added be.action act) refl there refl safe relative
        (Saved-Packed bes h)

  -- The content that is unpacked at a saved path.
  pub saved_content :
      (u : Unpacked) (p content : Str) (f g : File)
      → Good u
      → get p u.files ≡ some f
      → get p tree ≡ some g
      → g.content ≡ content
      → (f.content ≡ content)
        × (get p u.hashes ≡ some (digest content))
        × ((f.type == type_symlink) ≡ (g.type == type_symlink))
  saved_content u p content f g good there here same =
      let (h, g', here', alike) = good p f there in
      let is : g ≡ g' = cc in
      let e : f.content ≡ content =
        sym (alike.same_content) ∙ (ap (λ (x : File). x.content) (sym is) ∙ same) in
      (
        e,
        h ∙ ap (λ (c : Str). some (digest c)) e,
        sym (alike.same_link) ∙ ap (λ (x : File). x.type == type_symlink) (sym is),
      )

  pub check_hashes-Saved :
      (u : Unpacked) (bes : List BackupEntry)
      → Good u
      → All (Saved digest tree) bes
      → All (λ be. is_added be.action ≡ false → has be.path u.files ≡ true) bes
      → check_hashes digest clean perm u.hashes bes ≡ ok tt
  unfolding check_hashes
  check_hashes-Saved u [] good h all = refl
  check_hashes-Saved u (be ∷ bes) good (new_path new gone, h) all =
      rw new (check_hashes-Saved u bes good h all.1)
  check_hashes-Saved u (be ∷ bes) good (old_path act content there hashed safe relative, h) all =
      elim (Option-cases (get be.path u.files)) [
        | inl none_there ↦ absurd (ground (arith, all.0 (not-added be.action act)))
        | inr (f, e) ↦
            let c = saved_content u be.path content f _ good e there refl in
            rw (not-added be.action act, c.1, hashed, ==_refl be.hash)
              (check_hashes-Saved u bes good h all.1)
      ]
