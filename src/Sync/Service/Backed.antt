-- ===== src/Sync/Service/Backed.antt =====
-- The backup that an upload writes is a backup of the container's tree.
use pocket_coder.Prelude.{
  ℕ, Bool, true, false, ◌||◌, not, List, [], ◌∷◌, some, ◌≡◌, refl, sym, ◌∙◌, ap, subst, Str, any,
  All, All-imp, ◌⊎◌, inl, inr, ◌==◌, nat_eq, list_eq, list_beq_iff, arith, Bool-cases, Option-cases,
  if-branches, option-branches, length,
}
use pocket_coder.Map.{Map, get, put, has}
use pocket_coder.Map.Laws.{get-put, has-put}
use pocket_coder.Result.{Result, ok, err, ◌>>=◌, ◌>>◌}
use pocket_coder.Sync.Manifest.{Entry, Manifest, index, index_from, valid_path, type_symlink}
use pocket_coder.Sync.Diff.{Op, is_added, existing_from, append_found}
use pocket_coder.Sync.Errors.{SyncError}
use pocket_coder.Sync.Archive.{
  obstructed, other_kind, Kind, can_read, regular, link, File, Tree, Member, is_link, is_regular,
  is_abs, write_tar_member, member_error, check_missing, member_name, copy_members,
  copy_tar_members,
}
use pocket_coder.Sync.Archive.Staged.{check_missing-all}
use pocket_coder.Sync.Backup.{
  BackupEntry, backup_entry, backup_entries, backup_member, backup_members,
}
use pocket_coder.Sync.Backup.Edits.{IsAlike, IsPlanned, planned-action}
use pocket_coder.Sync.Service.Interface.{IsHeld, IsRead}

-- An entry stands under its own path.
abbrev pub IsKeyed : Map Str Entry → Type 0
IsKeyed m = (k : Str) (e : Entry) → get k m ≡ some e → e.path ≡ k

index_from-IsKeyed :
    (out : Map Str Entry) (es : List Entry) → IsKeyed out → IsKeyed (index_from out es)
unfolding index_from
index_from-IsKeyed out [] h = h
index_from-IsKeyed out (e ∷ es) h = index_from-IsKeyed (put e.path e out) es (λ k d found.
    elim (Bool-cases (e.path == k)) [
      | inl same ↦
          let is : e ≡ d = ground (arith, get-put e.path k e out) in
          ap (λ (x : Entry). x.path) (sym is) ∙ (list_beq_iff e.path k).0 same
      | inr apart ↦ h k d (ground (arith, get-put e.path k e out))
    ])

pub index-IsKeyed : (m : Manifest) → IsKeyed (index m)
unfolding index get
index-IsKeyed m = index_from-IsKeyed [] m.files (λ k e found. cc)

pub has-index_from :
    (p : Str) (out : Map Str Entry) (es : List Entry)
    → has p (index_from out es) ≡ (any (λ e. e.path == p) es || has p out)
unfolding index_from
has-index_from p out [] = refl
has-index_from p out (e ∷ es) =
    ground (arith, has-index_from p (put e.path e out) es, has-put e.path p e out)

-- The target's entry of every planned operation that adds nothing is among the affected ones.
existing_from-has :
    (source target : Map Str Entry) (ops : List Op)
    → IsKeyed target
    → All (IsPlanned source target) ops
    → All
        (λ op.
          is_added op.action ≡ false
          → any (λ e. e.path == op.path) (existing_from target ops) ≡ true)
        ops
unfolding existing_from append_found
existing_from-has source target [] keyed h = tt
existing_from-has source target (op ∷ ops) keyed h = (
  (λ old. elim (planned-action op (get op.path source) (get op.path target) h.0) [
    | inl new ↦ absurd (cc (ap is_added new.1, old))
    | inr (e, there, act) ↦
        rw (old, there) (ground (arith, list_beq_iff e.path op.path, keyed op.path e there))
  ]),
  All-imp ops (λ x later old. any-existing_cons x.path (later old))
      (existing_from-has source target ops keyed h.1),
)
  where
    any-existing_cons :
        (p : Str)
        → any (λ e. e.path == p) (existing_from target ops) ≡ true
        → any (λ e. e.path == p) (existing_from target (op ∷ ops)) ≡ true
    any-existing_cons p h = ground arith

-- From the operations to the entries of their backup.
pub backup_entries-old :
    (P : Str → Type 0) (target : Map Str Entry) (ops : List Op)
    → All (λ op. is_added op.action ≡ false → P op.path) ops
    → All (λ be. is_added be.action ≡ false → P be.path) (backup_entries target ops)
unfolding backup_entries backup_entry
backup_entries-old P target [] h = tt
backup_entries-old P target (op ∷ ops) h =
    let rest = backup_entries-old P target ops h.1 in
    if-branches (All (λ be. is_added be.action ≡ false → P be.path)) (is_added op.action) _ _
      (λ new. ((λ z. cc), rest))
      (λ old.
        option-branches (All (λ be. is_added be.action ≡ false → P be.path)) (get op.path target) _
          _ (λ gone. rest) (λ e there. ((λ z. h.0 z), rest)))

-- What was staged has the content that the tree has there.
abbrev pub IsReadFrom : Tree → Tree → Type 0
IsReadFrom tree staged =
    (p : Str) (f : File) → get p staged ≡ some f → (g : File) × (get p tree ≡ some g) × IsAlike g f

abbrev Written : Member → Result Str File → Type 0
Written h (err text) = Unit
Written h (ok f) = IsHeld h f × ((is_link h.kind ≡ true) ⊎ (is_regular h.kind ≡ true))

regular-link : (k : Kind) → is_regular k ≡ true → is_link k ≡ false
regular-link regular h = refl
regular-link link h = cc
regular-link other_kind h = refl

write_tar_member-Written :
    (digest : Str → Str) (perm : Str → ℕ → ℕ) (e : Entry) (h : Member)
    → Written h (write_tar_member digest perm e h)
unfolding write_tar_member
write_tar_member-Written digest perm e h =
    if-branches (Written h) (e.type == type_symlink) _ _
      (λ linked.
        if-branches (Written h) (not (is_link h.kind) || is_abs h.content) _ _ (λ bad. tt)
          (λ good.
            let is : is_link h.kind ≡ true = ground (arith, good) in
            (record { content = refl; linked = linked ∙ sym is }, inl is)))
      (λ plain.
        if-branches (Written h) (not (is_regular h.kind)) _ _ (λ bad. tt)
          (λ reg.
            if-branches (Written h)
              (not (length h.content == e.size) || not (digest h.content == e.hash)) _ _ (λ bad. tt)
              (λ good.
                let is : is_regular h.kind ≡ true = ground (arith, reg) in
                (
                  record { content = refl; linked = plain ∙ sym (regular-link h.kind is) },
                  inr is,
                ))))

is-read :
    (name : Member → Str) (tree : Tree) (h : Member)
    → IsRead name tree h
    → (is_link h.kind ≡ true) ⊎ (is_regular h.kind ≡ true)
    → (f : File) × (get (name h) tree ≡ some f) × IsHeld h f
is-read name tree h (inr r) k = r
is-read name tree h (inl o) (inl k) = absurd (cc (ap is_link o, k))
is-read name tree h (inl o) (inr k) = absurd (cc (ap is_regular o, k))

abbrev Reads : Tree → Result SyncError Tree → Type 0
Reads tree (err e) = Unit
Reads tree (ok staged) = IsReadFrom tree staged

member-Written :
    (tree : Tree) (strict : Bool) (h : Member) (r : Result Str File)
    (next : File → Result SyncError Tree)
    → Written h r
    → ((f : File) → Written h (ok f) → Reads tree (next f))
    → Reads tree (elim r as (λ _. Result SyncError Tree) [
      | err text ↦ err (member_error strict text)
      | ok f ↦ next f
    ])
member-Written tree strict h (err text) next w k = tt
member-Written tree strict h (ok f) next w k = k f w

module _ (digest clean : Str → Str) (perm : Str → ℕ → ℕ) (strict : Bool) (want : Map Str Entry)
    (tree : Tree) where
  put-IsReadFrom :
      (staged : Tree) (h : Member) (f : File)
      → Written h (ok f)
      → IsRead (member_name digest clean perm) tree h
      → IsReadFrom tree staged
      → IsReadFrom tree (put (member_name digest clean perm h) f staged)
  put-IsReadFrom staged h f w r old p x found =
      let name = member_name digest clean perm h in
      elim (Bool-cases (name == p)) [
        | inl same ↦
            let (g, there, e) = is-read (member_name digest clean perm) tree h r w.1 in
            let here : name ≡ p = (list_beq_iff name p).0 same in
            let is : f ≡ x = ground (arith, get-put name p f staged) in
            (
              g,
              rw (← here) there,
              subst (IsAlike g) is (record {
                same_content = e.content ∙ sym w.0.content;
                same_link = e.linked ∙ sym w.0.linked;
              }),
            )
        | inr apart ↦ old p x (ground (arith, get-put name p f staged))
      ]

  copy_members-Reads :
      (staged : Tree) (hs : List Member)
      → All (IsRead (member_name digest clean perm) tree) hs
      → IsReadFrom tree staged
      → Reads tree (copy_members digest clean perm strict want staged hs)
  unfolding copy_members
  copy_members-Reads staged [] r old = old
  copy_members-Reads staged (h ∷ hs) r old =
      let name = member_name digest clean perm h in
      option-branches (Reads tree) (get name want) _ _
        (λ unknown.
          if-branches (Reads tree) strict _ _ (λ s. tt) (λ s. copy_members-Reads staged hs r.1 old))
        (λ e there.
          if-branches (Reads tree) (has name staged || not (valid_path name)) _ _ (λ bad. tt)
            (λ good.
              if-branches (Reads tree) (obstructed name staged) _ _ (λ bad. tt)
                (λ free.
                  member-Written tree strict h (write_tar_member digest perm e h)
                    (λ f. copy_members digest clean perm strict want (put name f staged) hs)
                    (write_tar_member-Written digest perm e h)
                    (λ f w.
                      copy_members-Reads (put name f staged) hs r.1
                        (put-IsReadFrom staged h f w r.0 old)))))

pub copy_tar_members-reads :
    (digest clean : Str → Str) (perm : Str → ℕ → ℕ) (strict : Bool) (entries : List Entry)
    (tree : Tree) (hs : List Member) (staged : Tree)
    → All (IsRead (member_name digest clean perm) tree) hs
    → copy_tar_members digest clean perm strict entries hs ≡ ok staged
    → IsReadFrom tree staged
      × ((p : Str) → any (λ e. e.path == p) entries ≡ true → has p staged ≡ true)
unfolding copy_tar_members get
copy_tar_members-reads digest clean perm strict entries tree hs staged r done =
    taken (copy_members digest clean perm strict want [] hs)
      (copy_members-Reads digest clean perm strict want tree [] hs r none_yet) done
  where
    want : Map Str Entry
    want = index_from [] entries

    none_yet : IsReadFrom tree []
    none_yet p f found = cc

    checked :
        (t : Tree) (x : Result SyncError (Unit {0}))
        → check_missing strict t want ≡ x
        → IsReadFrom tree t
        → (x >> ok t) ≡ ok staged
        → IsReadFrom tree staged
          × ((p : Str) → any (λ e. e.path == p) entries ≡ true → has p staged ≡ true)
    checked t (err x) e h z = cc
    checked t (ok u) e h z =
        let is : t ≡ staged = cc in
        subst
          (λ (s : Tree).
            IsReadFrom tree s
            × ((p : Str) → any (λ e. e.path == p) entries ≡ true → has p s ≡ true))
          is
          (
            h,
            λ p there.
                check_missing-all digest clean perm strict want t want p e
                  (ground (arith, has-index_from p [] entries, there)),
          )

    taken :
        (x : Result SyncError Tree)
        → Reads tree x
        → (x >>= λ t. check_missing strict t want >> ok t) ≡ ok staged
        → IsReadFrom tree staged
          × ((p : Str) → any (λ e. e.path == p) entries ≡ true → has p staged ≡ true)
    taken (err x) h z = cc
    taken (ok t) h z = checked t (check_missing strict t want) refl h z

-- Backing up what was read is backing up the tree: only the contents go into an archive.
can_read-alike : (type : Str) (g f : File) → IsAlike g f → can_read type g ≡ can_read type f
unfolding can_read
can_read-alike type g f h = let e = h.same_link in ground arith

pub backup_members-read :
    (tree pre : Tree) (bes : List BackupEntry)
    → IsReadFrom tree pre
    → All (λ be. is_added be.action ≡ false → has be.path pre ≡ true) bes
    → backup_members pre bes ≡ backup_members tree bes
unfolding backup_members backup_member
backup_members-read tree pre [] r h = refl
backup_members-read tree pre (be ∷ bes) r h = elim (Bool-cases (is_added be.action)) [
  | inl new ↦ rw new (backup_members-read tree pre bes r h.1)
  | inr old ↦ elim (Option-cases (get be.path pre)) [
    | inl gone ↦ absurd (ground (arith, h.0 old))
    | inr (f, e) ↦
        let (g, there, alike) = r be.path f e in
        rw
          (
            old,
            e,
            there,
            can_read-alike be.type g f alike,
            alike.same_content,
            backup_members-read tree pre bes r h.1,
          )
          refl
  ]
]

pub affected-has :
    (source target : Map Str Entry) (ops : List Op) (pre : Tree)
    → IsKeyed target
    → All (IsPlanned source target) ops
    → ((p : Str) → any (λ e. e.path == p) (existing_from target ops) ≡ true → has p pre ≡ true)
    → All (λ be. is_added be.action ≡ false → has be.path pre ≡ true) (backup_entries target ops)
affected-has source target ops pre keyed h complete =
    backup_entries-old (λ p. has p pre ≡ true) target ops
      (All-imp ops (λ op k old. complete op.path (k old))
        (existing_from-has source target ops keyed h))
