-- ===== src/Sync/Service/Failed.antt =====
-- Uploads that fail after they changed the container.
use pocket_coder.Prelude.{
  ℕ, true, false, List, some, ◌≡◌, refl, ◌∙◌, ap, subst, Str, codes, any, All, inl, inr, ◌==◌,
  nat_eq, list_eq, Bool-cases, option-branches,
}
use pocket_coder.Map.{Map, get}
use pocket_coder.Result.{Result, ok, err, ◌>>◌}
use pocket_coder.Sync.Manifest.{Entry, Manifest, index}
use pocket_coder.Sync.Diff.{Op, is_added, transfer_set}
use pocket_coder.Sync.Errors.{SyncError, io}
use pocket_coder.Sync.Code.{CodeStore, Session}
use pocket_coder.Sync.Archive.{Tree, member_name}
use pocket_coder.Sync.Backup.{BackupEntry, Archive, backup_entries, write_backup, extract_backup}
use pocket_coder.Sync.Backup.Edits.{Describes, IsPlanned}
use pocket_coder.Sync.Backup.Packed.{KeepsPaths}
use pocket_coder.Sync.Service.Interface.{Container, IsFaithful}
use pocket_coder.Sync.Service.Backed.{index-IsKeyed}
use pocket_coder.Sync.Service.Paths.{added-gone, op-old, staged_entries-old}
use pocket_coder.Sync.Service.RolledBack.{IsOld, file_at, apply-other, restore-at}
use pocket_coder.Sync.Service.{
  Site, SendError, sync_failed, restore_failed, SendResult, added_paths, staged_entries, apply,
  verify, restore, rollback, undo, backup_text, sent, apply_and_verify,
}
use pocket_coder.Sync.Service.Undone.{extract_backup-IsOld}

module _ {W : Type 0} (c : Container W) (digest clean : Str → Str) (perm : Str → ℕ → ℕ)
    (law : IsFaithful (member_name digest clean perm) c) (keeps : KeepsPaths clean)
    (tree : Tree) where
  -- The world holds the tree again.
  abbrev pub IsBack : W → Type 0
  IsBack w = (p : Str) → get p (c.tree w) ≡ get p tree

  module _ (source : Map Str Entry) (server : Manifest) (ops : List Op)
      (d : Describes digest (index server) tree)
      (due : All (IsPlanned source (index server)) ops) where
    restore-IsBack :
        (a : Archive) (staged : Tree) (w : W)
        → a.entries ≡ backup_entries (index server) ops
        → All (IsOld tree staged) (staged_entries a.entries)
        → ((p : Str) → any (λ op. op.path == p) ops ≡ false → get p (c.tree w) ≡ get p tree)
        → (restore c a ops staged w).0 ≡ ok tt
        → IsBack (restore c a ops staged w).1
    unfolding file_at
    restore-IsBack a staged w es old rest h p =
        restore-at c law p tree staged a ops w h old
          (added-gone p source (index server) tree ops d.gone due)
          (λ out out'. elim (Bool-cases (any (λ op. op.path == p) ops)) [
            | inr apart ↦ rest p apart
            | inl there ↦ absurd (cc (saved there out, out'))
          ])
      where
        saved :
            any (λ op. op.path == p) ops ≡ true
            → any (λ q. q == p) (added_paths ops) ≡ false
            → any (λ e. e.path == p) (staged_entries a.entries) ≡ true
        saved there out =
            op-old (λ q. any (λ e. e.path == q) (staged_entries a.entries) ≡ true) p source
              (index server) ops due
              (subst
                (λ (bes : List BackupEntry).
                  All
                    (λ be.
                      is_added be.action ≡ false
                      → any (λ e. e.path == be.path) (staged_entries a.entries) ≡ true)
                    bes)
                es (staged_entries-old a.entries))
              there out

    abbrev Rolled : Result SyncError (Unit {0}) × Site W → Type 0
    Rolled (err e, s) = Unit
    Rolled (ok u, s) = IsBack s.world

    rollback-Rolled :
        (path : Str) (a : Archive) (sess : Session) (s : Site W)
        → sess.ops ≡ ops
        → write_backup tree server ops ≡ ok a
        → ((b : Archive) → get path s.archives ≡ some b → a ≡ b)
        → ((p : Str) → any (λ op. op.path == p) ops ≡ false → get p (c.tree s.world) ≡ get p tree)
        → Rolled (rollback c digest clean perm (some path) sess s)
    unfolding rollback
    rollback-Rolled path a sess s same packed kept rest =
        option-branches Rolled (get path s.archives) _ _ (λ gone. tt)
          (λ b there. opened b (packed ∙ ap ok (kept b there)))
      where
        done :
            (staged : Tree) (r : Result SyncError (Unit {0}) × W)
            → (r.0 ≡ ok tt → IsBack r.1)
            → Rolled (r.0, record s { world = r.1 })
        done staged (err e, w) h = tt
        done staged (ok u, w) h = h refl

        opened :
            (b : Archive)
            → write_backup tree server ops ≡ ok b
            → Rolled
                (elim (extract_backup digest clean perm b)
                  as (λ _. Result SyncError (Unit {0}) × Site W) [
                    | err e ↦ (err (io (codes "read backup")), s)
                    | ok staged ↦
                        let r = restore c b sess.ops staged s.world in
                        (r.0, record s { world = r.1 })
                  ])
        opened b packed' =
            let (staged, e, old, es) =
              extract_backup-IsOld digest clean perm keeps tree source server ops b d due packed' in
            rw (e, same)
              (done staged (restore c b ops staged s.world)
                (restore-IsBack b staged s.world es old rest))

    abbrev Out : Type 0
    Out = Result SendError SendResult × Session × Site W × CodeStore

    -- An error of the sync itself has left the tree as it was.
    abbrev pub IsUndone : Out → Type 0
    IsUndone (ok r, sess, s, store) = Unit
    IsUndone (err (restore_failed e x text), sess, s, store) = Unit
    IsUndone (err (sync_failed e), sess, s, store) = IsBack s.world

    -- The backup was written, and is kept unless it was pruned.
    module _ (path : Str) (a : Archive) (packed : write_backup tree server ops ≡ ok a) where
      undo-IsUndone :
          (e : SyncError) (sess : Session) (s : Site W) (store : CodeStore)
          → sess.ops ≡ ops
          → ((b : Archive) → get path s.archives ≡ some b → a ≡ b)
          → ((p : Str) → any (λ op. op.path == p) ops ≡ false → get p (c.tree s.world) ≡ get p tree)
          → IsUndone (undo c digest clean perm e (some path) sess s store)
      unfolding undo
      undo-IsUndone e sess s store same kept rest =
          back (rollback c digest clean perm (some path) sess s)
            (rollback-Rolled path a sess s same packed kept rest)
        where
          back :
              (r : Result SyncError (Unit {0}) × Site W)
              → Rolled r
              → IsUndone (elim (r.0) as (λ _. Out) [
                | ok u ↦ (err (sync_failed e), sess, r.1, store)
                | err x ↦ (err (restore_failed e x (backup_text (some path))), sess, r.1, store)
              ])
          back (ok u, s') h = h
          back (err x, s') h = tt

      pub apply_and_verify-IsUndone :
          (staged : Tree) (sess : Session) (s : Site W) (store : CodeStore)
          → sess.ops ≡ ops
          → ((b : Archive) → get path s.archives ≡ some b → a ≡ b)
          → IsBack s.world
          → IsUndone (apply_and_verify c digest clean perm staged (some path) sess s store)
      unfolding apply_and_verify sent transfer_set file_at
      apply_and_verify-IsUndone staged sess s store same kept here = judged (
          (apply c staged (transfer_set sess.client sess.ops) sess.ops s.world).0
          >> verify c sess.client
              (apply c staged (transfer_set sess.client sess.ops) sess.ops s.world).1)
        where
          s' : Site W
          s' = record s {
            world = (apply c staged (transfer_set sess.client sess.ops) sess.ops s.world).1;
          }

          rest :
              (p : Str)
              → any (λ op. op.path == p) ops ≡ false
              → get p
                  (c.tree (apply c staged (transfer_set sess.client sess.ops) sess.ops s.world).1)
                ≡ get p tree
          rest p out =
              apply-other c law p staged (index sess.client) sess.ops s.world
                (index-IsKeyed sess.client) (rw same out)
              ∙ here p

          judged :
              (r : Result SyncError (Unit {0}))
              → IsUndone (elim r as (λ _. Out) [
                | err e ↦ undo c digest clean perm e (some path) sess s' store
                | ok u ↦ sent c digest clean perm (some path) sess s' store
              ])
          judged (err e) = undo-IsUndone e sess s' store same kept rest
          judged (ok u) = tt
