-- ===== src/Sync/Service/RolledBack.antt =====
-- An upload that fails and is rolled back leaves the container's tree as it was.
use pocket_coder.Prelude.{
  if-branches, true, false, List, [], ◌∷◌, Option, none, some, ◌≡◌, refl, sym, ◌∙◌, Str, any, All,
  inl, inr, ◌==◌, nat_eq, list_eq, list_beq_iff, arith, Bool-cases, Option-cases, option-branches,
}
use pocket_coder.Map.{Map, get}
use pocket_coder.Result.{Result, ok, err, ◌>>=◌}
use pocket_coder.Sync.Manifest.{Entry}
use pocket_coder.Sync.Diff.{Op, transfer_from}
use pocket_coder.Sync.Errors.{SyncError}
use pocket_coder.Sync.Archive.{can_read, File, Tree, Member}
use pocket_coder.Sync.Backup.{Archive}
use pocket_coder.Sync.Service.Interface.{Container, IsFaithful}
use pocket_coder.Sync.Service.Backed.{IsKeyed}
use pocket_coder.Sync.Service.{
  payload, deleted_paths, added_paths, staged_entries, upload_files, remove_paths, and_then, apply,
  restore,
}
use pocket_coder.Sync.Service.Paths.{payload-Pays, Pays, any-deleted_paths, any-transfer_from}

-- Every file of a payload is the one that the tree had there.
abbrev Returns : Tree → Result SyncError Tree → Type 0
Returns tree (err x) = Unit
Returns tree (ok fs) = (p : Str) (f : File) → get p fs ≡ some f → get p tree ≡ some f

abbrev pub IsOld : Tree → Tree → Entry → Type 0
IsOld tree staged e =
    (f : File)
    → get e.path staged ≡ some f
    → get e.path tree ≡ some (record { type = e.type; mode = e.mode; content = f.content })

payload-Returns :
    (tree staged : Tree) (es : List Entry)
    → All (IsOld tree staged) es
    → Returns tree (payload staged es)
unfolding payload get
payload-Returns tree staged [] h = λ p f there. cc
payload-Returns tree staged (e ∷ es) h =
    option-branches (Returns tree) (get e.path staged) _ _ (λ gone. tt)
      (λ f there.
        if-branches (Returns tree) (can_read e.type f) _ _
          (λ good. more f there (payload staged es) (payload-Returns tree staged es h.1))
          (λ bad. tt))
  where
    more :
        (f : File)
        → get e.path staged ≡ some f
        → (r : Result SyncError Tree) → Returns tree r
        → Returns tree (
            r >>= λ gs.
            ok ((e.path, record { type = e.type; mode = e.mode; content = f.content }) ∷ gs))
    more f there (err x) ret = tt
    more f there (ok gs) ret = λ p g found. elim (Bool-cases (e.path == p)) [
      | inl same ↦
          let here : e.path ≡ p = (list_beq_iff e.path p).0 same in
          rw (← here) (h.0 f there ∙ (rw same at found))
      | inr apart ↦ ret p g (rw apart at found)
    ]

and_then_ok :
    {W : Type 0} (r : Result SyncError (Unit {0}) × W) (k : W → Result SyncError (Unit {0}) × W)
    → (and_then r k).0 ≡ ok tt
    → (r.0 ≡ ok tt) × ((k r.1).0 ≡ ok tt) × (and_then r k ≡ k r.1)
unfolding and_then
and_then_ok (ok tt', w) k h = (refl, h, refl)
and_then_ok (err e, w) k h = cc

module _ {W : Type 0} (c : Container W) {name : Member → Str} (law : IsFaithful name c)
    (p : Str) where
  unfoldable pub file_at : W → Option File
  file_at w = get p (c.tree w)

  upload_files-other :
      (staged : Tree) (es : List Entry) (w : W)
      → any (λ e. e.path == p) es ≡ false
      → file_at (upload_files c staged es w).1 ≡ file_at w
  unfolding upload_files file_at
  upload_files-other staged [] w out = refl
  upload_files-other staged (e ∷ es) w out =
      paid (payload staged (e ∷ es)) (payload-Pays staged (e ∷ es))
    where
      paid :
          (r : Result SyncError Tree)
          → Pays (e ∷ es) r
          → file_at
              (elim r as (λ _. Result SyncError (Unit {0}) × W) [
                | err x ↦ (err x, w)
                | ok fs ↦ c.upload w fs
              ]).1
            ≡ file_at w
      paid (err x) h = refl
      paid (ok fs) h = law.upload_other w fs p (h p ∙ out)

  remove_paths-other :
      (ps : List Str) (w : W)
      → any (λ q. q == p) ps ≡ false
      → file_at (remove_paths c ps w).1 ≡ file_at w
  unfolding remove_paths file_at
  remove_paths-other [] w out = refl
  remove_paths-other (q ∷ qs) w out = law.remove_other w (q ∷ qs) p out

  remove_paths-done :
      (ps : List Str) (w : W)
      → (remove_paths c ps w).0 ≡ ok tt
      → any (λ q. q == p) ps ≡ true
      → file_at (remove_paths c ps w).1 ≡ none
  unfolding remove_paths file_at
  remove_paths-done [] w h there = cc
  remove_paths-done (q ∷ qs) w h there = law.remove_done w (q ∷ qs) p h there

  and_then-other :
      (r : Result SyncError (Unit {0}) × W) (ps : List Str)
      → any (λ q. q == p) ps ≡ false
      → file_at (and_then r (remove_paths c ps)).1 ≡ file_at r.1
  unfolding and_then
  and_then-other (ok u, w) ps out = remove_paths-other ps w out
  and_then-other (err e, w) ps out = refl

  -- Applying leaves a path alone that no operation has.
  pub apply-other :
      (staged : Tree) (src : Map Str Entry) (ops : List Op) (w : W)
      → IsKeyed src
      → any (λ op. op.path == p) ops ≡ false
      → file_at (apply c staged (transfer_from src ops) ops w).1 ≡ file_at w
  unfolding apply
  apply-other staged src ops w keyed out =
      and_then-other (upload_files c staged (transfer_from src ops) w) (deleted_paths ops)
        (ground (arith, any-deleted_paths p ops))
      ∙ upload_files-other staged (transfer_from src ops) w
          (ground (arith, any-transfer_from p src ops keyed))

  upload_files-done :
      (tree staged : Tree) (es : List Entry) (w : W)
      → (upload_files c staged es w).0 ≡ ok tt
      → any (λ e. e.path == p) es ≡ true
      → All (IsOld tree staged) es
      → file_at (upload_files c staged es w).1 ≡ get p tree
  unfolding upload_files file_at
  upload_files-done tree staged [] w h there old = cc
  upload_files-done tree staged (e ∷ es) w h there old =
      paid (payload staged (e ∷ es)) (payload-Pays staged (e ∷ es))
        (payload-Returns tree staged (e ∷ es) old) h
    where
      paid :
          (r : Result SyncError Tree)
          → Pays (e ∷ es) r
          → Returns tree r
          → (elim r as (λ _. Result SyncError (Unit {0}) × W) [
            | err x ↦ (err x, w)
            | ok fs ↦ c.upload w fs
          ]).0
            ≡ ok tt
          → file_at
              (elim r as (λ _. Result SyncError (Unit {0}) × W) [
                | err x ↦ (err x, w)
                | ok fs ↦ c.upload w fs
              ]).1
            ≡ get p tree
      paid (err x) pays ret k = cc
      paid (ok fs) pays ret k = elim (Option-cases (get p fs)) [
        | inl gone ↦ absurd (ground (arith, pays p, there))
        | inr (f, e) ↦ law.upload_done w fs p f k e ∙ sym (ret p f e)
      ]

  -- What a successful restore leaves at a path.
  pub restore-at :
      (tree staged : Tree) (a : Archive) (ops : List Op) (w : W)
      → (restore c a ops staged w).0 ≡ ok tt
      → All (IsOld tree staged) (staged_entries a.entries)
      → (any (λ q. q == p) (added_paths ops) ≡ true → get p tree ≡ none)
      → (any (λ q. q == p) (added_paths ops) ≡ false
          → any (λ e. e.path == p) (staged_entries a.entries) ≡ false
          → file_at w ≡ get p tree)
      → file_at (restore c a ops staged w).1 ≡ get p tree
  unfolding restore
  restore-at tree staged a ops w h old new rest =
      let up = upload_files c staged (staged_entries a.entries) w in
      let (done, removed, e) = and_then_ok up (remove_paths c (added_paths ops)) h in
      elim (Bool-cases (any (λ q. q == p) (added_paths ops))) [
        | inl there ↦
            rw e (remove_paths-done (added_paths ops) up.1 removed there ∙ sym (new there))
        | inr out ↦ rw e (
            remove_paths-other (added_paths ops) up.1 out
            ∙ elim (Bool-cases (any (λ x. x.path == p) (staged_entries a.entries))) [
              | inl there ↦
                  upload_files-done tree staged (staged_entries a.entries) w done there old
              | inr out' ↦
                  upload_files-other staged (staged_entries a.entries) w out' ∙ rest out out'
            ])
      ]
