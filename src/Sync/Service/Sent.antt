-- ===== src/Sync/Service/Sent.antt =====
-- What each way out of an upload leaves of the session and of its code.
use pocket_coder.Prelude.{
  ℕ, ◌+◌, true, ◌||◌, not, List, Option, none, some, ◌≡◌, refl, Str, codes, if-branches,
}
use pocket_coder.Result.{Result, ok, err, ◌>>=◌, ◌>>◌}
use pocket_coder.Sync.Manifest.{Manifest}
use pocket_coder.Sync.Diff.{counts, compare, CompareError, transfer_set}
use pocket_coder.Sync.Errors.{SyncError, bad_payload}
use pocket_coder.Sync.Code.{CodeStore, Session, finish}
use pocket_coder.Sync.Archive.{Tree, Member, copy_tar_members}
use pocket_coder.Sync.Service.Interface.{Container}
use pocket_coder.Sync.Service.{
  Site, SendError, sync_failed, restore_failed, SendResult, is_upload, verify, backup_target,
  rollback, backup_text, undo, sent, apply, apply_and_verify, send_staged, send,
}

module _ {W : Type 0} (c : Container W) where
  abbrev Out : Type 0
  Out = Result SendError SendResult × Session × Site W × CodeStore

  -- After a success the container agrees with the laptop, and the session and its code are over;
  -- after an error both are as they were, but for the path of the backup.
  pub data IsSent (sess : Session) (store : CodeStore) (s : Site W) : Out → Type 0 where
    is_sent :
        (res : SendResult) (sess' : Session) (s' : Site W) (got : Manifest)
        → c.manifest s'.world ≡ ok got
        → compare sess.client got ≡ ok tt
        → res.applied ≡ (counts sess.ops).add + (counts sess.ops).overwrite
        → res.deleted_files ≡ (counts sess.ops).delete
        → sess' ≡ record sess { backup = sess'.backup; finished = true }
        → IsSent sess store s (ok res, sess', s', finish sess.id store)
    is_failed :
        (e : SendError) (sess' : Session) (s' : Site W)
        → sess' ≡ record sess { backup = sess'.backup }
        → IsSent sess store s (err e, sess', s', store)

  verify_ok :
      (want : Manifest) (w : W)
      → verify c want w ≡ ok tt
      → (got : Manifest) × (c.manifest w ≡ ok got) × (compare want got ≡ ok tt)
  unfolding verify
  verify_ok want w h = seen (c.manifest w) refl h
    where
      agree :
          (got : Manifest) (r : Result CompareError (Unit {0}))
          → c.manifest w ≡ ok got
          → compare want got ≡ r
          → (elim r as (λ _. Result SyncError (Unit {0})) [
            | ok u ↦ ok tt
            | err e ↦ err (bad_payload (codes "The applied tree does not match the manifest"))
          ])
            ≡ ok tt
          → (got : Manifest) × (c.manifest w ≡ ok got) × (compare want got ≡ ok tt)
      agree got (ok u) m k z = (got, m, k)
      agree got (err e) m k z = cc

      seen :
          (r : Result SyncError Manifest)
          → c.manifest w ≡ r
          → (r >>= λ got. elim (compare want got) as (λ _. Result SyncError (Unit {0})) [
            | ok u ↦ ok tt
            | err e ↦ err (bad_payload (codes "The applied tree does not match the manifest"))
          ])
            ≡ ok tt
          → (got : Manifest) × (c.manifest w ≡ ok got) × (compare want got ≡ ok tt)
      seen (err e) m z = cc
      seen (ok got) m z = agree got (compare want got) m refl z

  module _ (digest clean : Str → Str) (perm : Str → ℕ → ℕ) where
    undo-IsSent :
        (e : SyncError) (backup : Option Str) (sess : Session) (s s' : Site W) (store : CodeStore)
        → IsSent sess store s (undo c digest clean perm e backup sess s' store)
    unfolding undo
    undo-IsSent e backup sess s s' store =
        elim ((rollback c digest clean perm backup sess s').0)
          as (λ r. IsSent sess store s (elim r as (λ _. Out) [
            | ok u ↦
                (err (sync_failed e), sess, (rollback c digest clean perm backup sess s').1, store)
            | err x ↦ (
              err (restore_failed e x (backup_text backup)),
              sess,
              (rollback c digest clean perm backup sess s').1,
              store,
            )
          ])) [ ok u ↦ is_failed _ _ _ refl | err x ↦ is_failed _ _ _ refl ]

    apply_and_verify-IsSent :
        (staged : Tree) (backup : Option Str) (sess : Session) (s s' : Site W) (store : CodeStore)
        → IsSent sess store s (apply_and_verify c digest clean perm staged backup sess s' store)
    unfolding apply_and_verify sent
    apply_and_verify-IsSent staged backup sess s s' store =
        judged ((apply c staged (transfer_set sess.client sess.ops) sess.ops s'.world).0)
          (verify c sess.client
            (apply c staged (transfer_set sess.client sess.ops) sess.ops s'.world).1)
          refl
      where
        s'' : Site W
        s'' = record s' {
          world = (apply c staged (transfer_set sess.client sess.ops) sess.ops s'.world).1;
        }

        judged :
            (r v : Result SyncError (Unit {0}))
            → verify c sess.client
                (apply c staged (transfer_set sess.client sess.ops) sess.ops s'.world).1
              ≡ v
            → IsSent sess store s (elim (r >> v) as (λ _. Out) [
              | err e ↦ undo c digest clean perm e backup sess s'' store
              | ok u ↦ sent c digest clean perm backup sess s'' store
            ])
        judged (err e) v k = undo-IsSent e backup sess s s'' store
        judged (ok u) (err e) k = undo-IsSent e backup sess s s'' store
        judged (ok u) (ok v) k =
            let (got, m, same) = verify_ok sess.client _ k in
            is_sent _ _ _ got m same refl refl refl

    send_staged-IsSent :
        (path : Str) (staged : Tree) (sess : Session) (s : Site W) (store : CodeStore)
        → IsSent sess store s (send_staged c digest clean perm path staged sess s store)
    unfolding send_staged
    send_staged-IsSent path staged sess s store =
        targeted (backup_target c digest clean perm path sess s)
      where
        kept :
            (b : Option Str) (r : Out)
            → IsSent
                (elim b as (λ _. Session) [ none ↦ sess | some p ↦ record sess { backup = p } ])
                store
                s
                r
            → IsSent sess store s r
        kept none r h = h
        kept (some p) _ (is_sent res sess' s' got m same n del over) =
            is_sent res sess' s' got m same n del over
        kept (some p) _ (is_failed e sess' s' f) = is_failed e sess' s' f

        targeted :
            (b : Result SyncError (Option Str) × Site W)
            → IsSent sess store s (elim (b.0) as (λ _. Out) [
              | err e ↦ (err (sync_failed e), sess, b.1, store)
              | ok backup ↦
                  apply_and_verify c digest clean perm staged backup
                    (elim backup [ none ↦ sess | some p ↦ record sess { backup = p } ])
                    b.1
                    store
            ])
        targeted (err e, s') = is_failed _ _ _ refl
        targeted (ok backup, s') =
            kept backup _ (apply_and_verify-IsSent staged backup _ s s' store)

    -- An upload that reports success leaves a container whose manifest agrees with the laptop's,
    -- reports the planned number of files, and ends the session and its code. An upload that fails
    -- leaves the whole session but for the path of its backup, and the code store, as they were,
    -- whatever step failed and whether or not the container could be restored.
    pub send-IsSent :
        (path : Str) (incoming : Result SyncError (List Member)) (sess : Session) (s : Site W)
        (store : CodeStore)
        → IsSent sess store s (send c digest clean perm path incoming sess s store)
    unfolding send
    send-IsSent path incoming sess s store =
        if-branches (IsSent sess store s) (not sess.accepted || not (is_upload sess.direction)) _ _
          (λ bad. is_failed _ _ _ refl)
          (λ good.
            if-branches (IsSent sess store s) sess.finished _ _ (λ over. is_failed _ _ _ refl)
              (λ open'. received (
                incoming >>= λ members.
                copy_tar_members digest clean perm true (transfer_set sess.client sess.ops)
                  members)))
      where
        received :
            (r : Result SyncError Tree)
            → IsSent sess store s (elim r as (λ _. Out) [
              | err e ↦ (err (sync_failed e), sess, s, store)
              | ok staged ↦ send_staged c digest clean perm path staged sess s store
            ])
        received (err e) = is_failed _ _ _ refl
        received (ok staged) = send_staged-IsSent path staged sess s store
