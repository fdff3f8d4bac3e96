-- ===== src/Sync/Service/Restored.antt =====
-- Whole uploads that fail: the backup, then what was applied, then the rollback.
use pocket_coder.Prelude.{
  ℕ, true, false, ◌||◌, not, List, [], ◌∷◌, Option, none, some, ◌≡◌, ◌≢◌, refl, subst, Str, All,
  nat_eq, list_eq, if-branches,
}
use pocket_coder.Map.{Map, get}
use pocket_coder.Result.{Result, ok, err, ◌>>=◌}
use pocket_coder.Sync.Manifest.{Entry, Manifest, index}
use pocket_coder.Sync.Diff.{Op, diff, transfer_set, existing_entries}
use pocket_coder.Sync.Errors.{SyncError}
use pocket_coder.Sync.Code.{CodeStore, Session}
use pocket_coder.Sync.Archive.{Tree, Member, member_name, copy_tar_members}
use pocket_coder.Sync.Backup.{Archive, BackupError, backup_entries, write_backup}
use pocket_coder.Sync.Backup.Edits.{Describes, IsPlanned, diff-IsPlanned}
use pocket_coder.Sync.Backup.Packed.{KeepsPaths}
use pocket_coder.Sync.Service.Interface.{Container, IsFaithful, IsRead}
use pocket_coder.Sync.Service.Backed.{
  index-IsKeyed, copy_tar_members-reads, backup_members-read, affected-has,
}
use pocket_coder.Sync.Service.{
  Site, SendError, sync_failed, SendResult, as_io, entry_paths, keep_archive, backup_target,
  is_upload, apply_and_verify, send_staged, send,
}
use pocket_coder.Sync.Service.Undone.{get-keep_archive}
use pocket_coder.Sync.Service.Failed.{IsUndone, apply_and_verify-IsUndone}

module _ {W : Type 0} (c : Container W) (digest clean : Str → Str) (perm : Str → ℕ → ℕ)
    (law : IsFaithful (member_name digest clean perm) c) (keeps : KeepsPaths clean)
    (source : Map Str Entry) (server : Manifest) (ops : List Op) (s : Site W)
    (d : Describes digest (index server) (c.tree s.world))
    (due : All (IsPlanned source (index server)) ops) where
  abbrev Out : Type 0
  Out = Result SendError SendResult × Session × Site W × CodeStore

  abbrev Undone : Out → Type 0
  Undone = IsUndone c digest clean perm law keeps (c.tree s.world) source server ops d due

  -- The archive that was written is a backup of the container's tree.
  abbrev IsKept : Result SyncError (Option Str) × Site W → Type 0
  IsKept (err x, s') = s'.world ≡ s.world
  IsKept (ok none, s') = existing_entries server ops ≡ []
  IsKept (ok (some path), s') =
      (a : Archive) × (write_backup (c.tree s.world) server ops ≡ ok a)
      × ((b : Archive) → get path s'.archives ≡ some b → a ≡ b)
      × (s'.world ≡ s.world)

  write_backup-read :
      (es : List Entry) (hs : List Member) (pre : Tree) (a : Archive)
      → existing_entries server ops ≡ es
      → All (IsRead (member_name digest clean perm) (c.tree s.world)) hs
      → copy_tar_members digest clean perm false es hs ≡ ok pre
      → write_backup pre server ops ≡ ok a
      → write_backup (c.tree s.world) server ops ≡ ok a
  unfolding write_backup existing_entries
  write_backup-read es hs pre a affected reads copied h =
      let (from, complete) =
        copy_tar_members-reads digest clean perm false es (c.tree s.world) hs pre reads copied in
      rw
        (← backup_members-read (c.tree s.world) pre (backup_entries (index server) ops) from (
          affected-has source (index server) ops pre (index-IsKeyed server) due
            (λ p there. complete p (rw affected at there))))
        h

  backup_target-IsKept :
      (path : Str) (sess : Session)
      → sess.server ≡ server
      → sess.ops ≡ ops
      → IsKept (backup_target c digest clean perm path sess s)
  unfolding backup_target as_io
  backup_target-IsKept path sess same_server same =
      rw (same_server, same) (affected (existing_entries server ops) refl)
    where
      saved :
          (es : List Entry) (pre : Tree) (r : Result BackupError Archive)
          → write_backup pre server ops ≡ r
          → existing_entries server ops ≡ es
          → copy_tar_members digest clean perm false es (c.read_tar s.world (entry_paths es))
            ≡ ok pre
          → IsKept (elim (as_io r) as (λ _. Result SyncError (Option Str) × Site W) [
            | err x ↦ (err x, s)
            | ok a ↦ (ok (some path), record s { archives = keep_archive path a s.archives })
          ])
      saved es pre (err x) w q k = refl
      saved es pre (ok a) w q k = (
        a,
        write_backup-read es (c.read_tar s.world (entry_paths es)) pre a q
            (law.reads s.world (entry_paths es)) k w,
        (λ b there. get-keep_archive path a b s.archives there),
        refl,
      )

      copied :
          (es : List Entry) (r : Result SyncError Tree)
          → existing_entries server ops ≡ es
          → copy_tar_members digest clean perm false es (c.read_tar s.world (entry_paths es)) ≡ r
          → IsKept
              (elim (r >>= λ pre. as_io (write_backup pre server ops))
                as (λ _. Result SyncError (Option Str) × Site W) [
                  | err x ↦ (err x, s)
                  | ok a ↦ (ok (some path), record s { archives = keep_archive path a s.archives })
                ])
      copied es (err x) q k = refl
      copied es (ok pre) q k = saved es pre (write_backup pre server ops) refl q k

      affected :
          (l : List Entry)
          → existing_entries server ops ≡ l
          → IsKept (elim l as (λ _. Result SyncError (Option Str) × Site W) [
            | [] ↦ (ok none, s)
            | ◌∷◌ e es ↦
                elim (copy_tar_members digest clean perm false
                    (e ∷ es)
                    (c.read_tar s.world (entry_paths (e ∷ es)))
                  >>= λ pre. as_io (write_backup pre server ops)) [
                    | err x ↦ (err x, s)
                    | ok a ↦
                        (ok (some path), record s { archives = keep_archive path a s.archives })
                  ]
          ])
      affected [] q = q
      affected (e ∷ es) q = copied (e ∷ es) _ q refl

  send_staged-Undone :
      (path : Str) (staged : Tree) (sess : Session) (store : CodeStore)
      → sess.server ≡ server
      → sess.ops ≡ ops
      → existing_entries server ops ≢ []
      → Undone (send_staged c digest clean perm path staged sess s store)
  unfolding send_staged
  send_staged-Undone path staged sess store same_server same some_old =
      targeted (backup_target c digest clean perm path sess s)
        (backup_target-IsKept path sess same_server same)
    where
      targeted :
          (b : Result SyncError (Option Str) × Site W)
          → IsKept b
          → Undone (elim (b.0) as (λ _. Out) [
            | err e ↦ (err (sync_failed e), sess, b.1, store)
            | ok backup ↦
                apply_and_verify c digest clean perm staged backup
                  (elim backup [ none ↦ sess | some p ↦ record sess { backup = p } ])
                  b.1
                  store
          ])
      targeted (err e, s') k = λ p. rw k refl
      targeted (ok none, s') k = absurd (some_old k)
      targeted (ok (some q), s') (a, packed, kept, here) =
          apply_and_verify-IsUndone c digest clean perm law keeps (c.tree s.world) source server ops
            d due q a packed staged (record sess { backup = q }) s' store same kept
            (λ p. rw here refl)

  send-Undone :
      (path : Str) (incoming : Result SyncError (List Member)) (sess : Session) (store : CodeStore)
      → sess.server ≡ server
      → sess.ops ≡ ops
      → existing_entries server ops ≢ []
      → Undone (send c digest clean perm path incoming sess s store)
  unfolding send
  send-Undone path incoming sess store same_server same some_old =
      if-branches Undone (not sess.accepted || not (is_upload sess.direction)) _ _ (λ bad p. refl)
        (λ good.
          if-branches Undone sess.finished _ _ (λ over p. refl)
            (λ due'. received (
              incoming >>= λ members.
              copy_tar_members digest clean perm true (transfer_set sess.client sess.ops) members)))
    where
      received :
          (r : Result SyncError Tree)
          → Undone (elim r as (λ _. Out) [
            | err e ↦ (err (sync_failed e), sess, s, store)
            | ok staged ↦ send_staged c digest clean perm path staged sess s store
          ])
      received (err e) = λ p. refl
      received (ok staged) = send_staged-Undone path staged sess store same_server same some_old

-- An upload whose plan is the difference of the laptop's manifest and one that describes the
-- container's tree, and that overwrites or deletes something, may fail at any step: in the archive
-- that came in, the backup, the upload, the removal or the verification, each of which may have done
-- a part. When `Send` then returns the error of the sync and not that of a failed restore, every path
-- of the container's tree is as it was before, with its type, mode and content.
pub send-undoes :
    {W : Type 0} (c : Container W) (digest clean : Str → Str) (perm : Str → ℕ → ℕ)
    → IsFaithful (member_name digest clean perm) c
    → KeepsPaths clean
    → (path : Str) (incoming : Result SyncError (List Member)) (sess sess' : Session)
      (s s' : Site W) (store store' : CodeStore) (e : SyncError)
    → sess.ops ≡ diff sess.client sess.server
    → Describes digest (index sess.server) (c.tree s.world)
    → existing_entries sess.server sess.ops ≢ []
    → send c digest clean perm path incoming sess s store ≡ (err (sync_failed e), sess', s', store')
    → (p : Str) → get p (c.tree s'.world) ≡ get p (c.tree s.world)
send-undoes c digest clean perm law keeps path incoming sess sess' s s' store store' e planned d
      some_old h =
    let due : All (IsPlanned (index sess.client) (index sess.server)) sess.ops =
      rw planned (diff-IsPlanned sess.client sess.server) in
    let undone =
      send-Undone c digest clean perm law keeps (index sess.client) sess.server sess.ops s d due
        path incoming sess store refl refl some_old in
    subst
      (IsUndone c digest clean perm law keeps (c.tree s.world) (index sess.client) sess.server
        sess.ops d due)
      h undone
