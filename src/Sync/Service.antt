-- ===== src/Sync/Service.antt =====
-- server/internal/sync/service.go with UploadFiles, RemovePaths and WriteStaged of container.go: the
-- plan of a sync, and an upload that is backed up, applied, verified, and rolled back on failure.
-- The container is an interface, `Container`; the commands that it runs are not code of the
-- repository. A session is passed and returned, its cell on the code store's heap being the caller's.
pub mod Interface
pub mod Backed
pub mod Paths
pub mod RolledBack
pub mod Undone
pub mod Failed
pub mod Restored
pub mod Planned
pub mod Sent
mod Tests
use pocket_coder.Prelude.{
  ℕ, ◌+◌, ◌-◌, Bool, true, false, ◌&&◌, ◌||◌, not, List, [], ◌∷◌, Option, none, some, Str, codes,
  length, take, ◌==◌, nat_eq, list_eq, if◌then◌else◌,
}
use pocket_coder.Map.{Map, get, put, del}
use pocket_coder.Order.{sort, str_ltb}
use pocket_coder.Result.{Result, ok, err, ◌>>=◌, ◌>>◌}
use pocket_coder.Sync.Manifest.{Entry, Manifest, index, normalize}
use pocket_coder.Sync.Diff.{
  Op, is_deleted, is_added, Direction, upload, download, other_direction, valid_direction, plan_ops,
  existing_entries, transfer_set, compare, counts, Tally,
}
use pocket_coder.Sync.Errors.{SyncError, bad_plan, bad_payload, code_used, io}
use pocket_coder.Sync.Code.{CodeStore, Session, mark_used, finish}
use pocket_coder.Sync.Archive.{can_read, File, Tree, Member, copy_tar_members}
use pocket_coder.Sync.Backup.{
  BackupEntry, Archive, BackupError, backup_entries, write_backup, extract_backup,
}
use pocket_coder.Sync.Service.Interface.{Container}

abbrev pub is_upload : Direction → Bool
is_upload upload = true
is_upload _ = false

abbrev pub phase_of : Direction → Str
phase_of upload = codes "uploading"
phase_of download = codes "downloading"
phase_of (other_direction s) = codes "ing"

-- The files that an upload writes: each entry's, from the staged tree.
unfoldable pub payload : Tree → List Entry → Result SyncError Tree
payload staged [] = ok []
payload staged (e ∷ es) =
    let rest = payload staged es in
    elim (get e.path staged) [
      | none ↦ err (io (codes "no such file"))
      | some f ↦
          if can_read e.type f
          then (rest >>= λ fs.
              ok ((e.path, record { type = e.type; mode = e.mode; content = f.content }) ∷ fs))
          else err (io (codes "readlink"))
    ]

unfoldable pub deleted_paths : List Op → List Str
deleted_paths [] = []
deleted_paths (op ∷ ops) =
    let rest = deleted_paths ops in if is_deleted op.action then op.path ∷ rest else rest

unfoldable pub added_paths : List Op → List Str
added_paths [] = []
added_paths (op ∷ ops) =
    let rest = added_paths ops in if is_added op.action then op.path ∷ rest else rest

-- `stagedEntries`: the entries to upload again; their sizes are not used.
unfoldable pub staged_entries : List BackupEntry → List Entry
staged_entries [] = []
staged_entries (be ∷ bes) =
    let rest = staged_entries bes in
    if is_added be.action
    then rest
    else record { path = be.path; size = 0; mode = be.mode; type = be.type; hash = be.hash } ∷ rest

unfoldable pub as_io {ℓ} : {A : Type ℓ} → Result BackupError A → Result SyncError A
as_io (ok a) = ok a
as_io (err e) = err (io (codes "backup"))

abbrev pub entry_paths : List Entry → List Str
entry_paths [] = []
entry_paths (e ∷ es) = e.path ∷ entry_paths es

-- What a sync works on: the container's world and the server's archives by their paths.
pub record Site (W : Type 0) : Type 0 where
  pub world : W
  pub archives : Map Str Archive

-- `Send` returns the error of the sync, or that of its restore.
pub data SendError : Type 0 where
  sync_failed : SyncError → SendError
  restore_failed : SyncError → SyncError → Str → SendError

pub record SendResult : Type 0 where
  pub applied : ℕ
  pub deleted_files : ℕ
  pub backup : Str

-- `Plan` up to the lock: the direction and the client's manifest are checked.
unfoldable pub plan_ready :
    Session
    → Direction
    → Manifest
    → Manifest
    → Str
    → Str
    → CodeStore
    → Result SyncError (Manifest × List Op) × Session × CodeStore
plan_ready sess direction client server branch commit store =
    if not (branch == sess.branch) || not (commit == sess.commit)
    then (err (bad_plan (codes "The project changed")), sess, store)
    else (
      ok (server, plan_ops direction client server),
      record sess {
        client = client;
        server = server;
        ops = plan_ops direction client server;
        direction = direction;
        accepted = true;
        phase = some (phase_of direction);
      },
      mark_used sess store,
    )

-- The archives that `PruneBackups` removes.
unfoldable pub dropped_backups : ℕ → List Str → List Str
dropped_backups keep names = take (length (sort str_ltb names) - keep) (sort str_ltb names)

unfoldable pub del_names : List Str → Map Str Archive → Map Str Archive
del_names [] m = m
del_names (n ∷ ns) m = del n (del_names ns m)

unfoldable pub archive_names : Map Str Archive → List Str
archive_names [] = []
archive_names ((n, a) ∷ m) = n ∷ archive_names m

unfoldable pub keep_archive : Str → Archive → Map Str Archive → Map Str Archive
keep_archive path a m = del_names (dropped_backups 10 (archive_names (put path a m))) (put path a m)

unfoldable pub backup_text : Option Str → Str
backup_text none = []
backup_text (some path) = path

-- The second action if the first one succeeds.
unfoldable pub and_then :
    {W : Type 0}
    → Result SyncError (Unit {0}) × W
    → (W → Result SyncError (Unit {0}) × W)
    → Result SyncError (Unit {0}) × W
and_then (ok u, w) k = k w
and_then (err e, w) k = (err e, w)

module _ {W : Type 0} (c : Container W) where
  unfoldable pub plan_locked :
      W
      → Session
      → Direction
      → Manifest
      → CodeStore
      → Result SyncError (Manifest × List Op) × Session × CodeStore
  plan_locked w sess direction client store =
      if sess.accepted
      then (err (bad_plan (codes "already planned")), sess, store)
      else elim (c.manifest w) [
        | err e ↦ (err e, sess, store)
        | ok server ↦ elim (c.git w) [
          | err e ↦ (err e, sess, store)
          | ok git ↦ plan_ready sess direction client server git.0 git.1 store
        ]
      ]

  unfoldable pub plan :
      W
      → Session
      → Direction
      → Manifest
      → CodeStore
      → Result SyncError (Manifest × List Op) × Session × CodeStore
  plan w sess direction client store =
      if not (valid_direction direction)
      then (err (bad_plan (codes "Choose Upload or Download.")), sess, store)
      else elim (normalize client) [
        | err e ↦ (err (bad_plan (codes "The laptop manifest is malformed.")), sess, store)
        | ok m ↦ plan_locked w sess direction m store
      ]

  -- `UploadFiles` and `RemovePaths` do nothing without files or paths.
  unfoldable pub upload_files : Tree → List Entry → W → Result SyncError (Unit {0}) × W
  upload_files staged [] w = (ok tt, w)
  upload_files staged (e ∷ es) w = elim (payload staged (e ∷ es)) [
    | err x ↦ (err x, w)
    | ok files ↦ c.upload w files
  ]

  unfoldable pub remove_paths : List Str → W → Result SyncError (Unit {0}) × W
  remove_paths [] w = (ok tt, w)
  remove_paths (p ∷ ps) w = c.remove w (p ∷ ps)

  unfoldable pub apply : Tree → List Entry → List Op → W → Result SyncError (Unit {0}) × W
  apply staged entries ops w =
      and_then (upload_files staged entries w) (remove_paths (deleted_paths ops))

  unfoldable pub verify : Manifest → W → Result SyncError (Unit {0})
  verify want w = c.manifest w >>= λ got. elim (compare want got) [
    | ok u ↦ ok tt
    | err e ↦ err (bad_payload (codes "The applied tree does not match the manifest"))
  ]

  unfoldable pub restore : Archive → List Op → Tree → W → Result SyncError (Unit {0}) × W
  restore a ops staged w =
      and_then (upload_files staged (staged_entries a.entries) w) (remove_paths (added_paths ops))

module _ {W : Type 0} (c : Container W) (digest clean : Str → Str) (perm : Str → ℕ → ℕ) where
  -- `backupTarget`, `path` being the free name of `BackupPath`: none if nothing there is affected.
  unfoldable pub backup_target : Str → Session → Site W → Result SyncError (Option Str) × Site W
  backup_target path sess s = elim (existing_entries sess.server sess.ops) [
    | [] ↦ (ok none, s)
    | ◌∷◌ e es ↦
        elim (copy_tar_members digest clean perm false (e ∷ es)
            (c.read_tar s.world (entry_paths (e ∷ es)))
          >>= λ pre. as_io (write_backup pre sess.server sess.ops)) [
            | err x ↦ (err x, s)
            | ok a ↦ (ok (some path), record s { archives = keep_archive path a s.archives })
          ]
  ]

  unfoldable pub rollback : Option Str → Session → Site W → Result SyncError (Unit {0}) × Site W
  rollback none sess s = (ok tt, s)
  rollback (some path) sess s = elim (get path s.archives) [
    | none ↦ (err (io (codes "open backup")), s)
    | some a ↦ elim (extract_backup digest clean perm a) [
      | err e ↦ (err (io (codes "read backup")), s)
      | ok staged ↦ let r = restore c a sess.ops staged s.world in (r.0, record s { world = r.1 })
    ]
  ]

  -- The end of `Send` after a failed apply or verification.
  unfoldable pub undo :
      SyncError
      → Option Str
      → Session
      → Site W
      → CodeStore
      → Result SendError SendResult × Session × Site W × CodeStore
  undo e backup sess s store =
      let r = rollback backup sess s in
      elim (r.0) [
        | ok u ↦ (err (sync_failed e), sess, r.1, store)
        | err x ↦ (err (restore_failed e x (backup_text backup)), sess, r.1, store)
      ]

  unfoldable pub sent :
      Option Str
      → Session
      → Site W
      → CodeStore
      → Result SendError SendResult × Session × Site W × CodeStore
  sent backup sess s store =
      let t = counts sess.ops in
      (
        ok (record {
          applied = t.add + t.overwrite;
          deleted_files = t.delete;
          backup = backup_text backup;
        }),
        record sess { finished = true },
        s,
        finish sess.id store,
      )

  -- `Send` from the backup on.
  unfoldable pub apply_and_verify :
      Tree
      → Option Str
      → Session
      → Site W
      → CodeStore
      → Result SendError SendResult × Session × Site W × CodeStore
  apply_and_verify staged backup sess s store =
      let r = apply c staged (transfer_set sess.client sess.ops) sess.ops s.world in
      let s' : Site W = record s { world = r.1 } in
      elim (r.0 >> verify c sess.client r.1) [
        | err e ↦ undo e backup sess s' store
        | ok u ↦ sent backup sess s' store
      ]

  unfoldable pub send_staged :
      Str
      → Tree
      → Session
      → Site W
      → CodeStore
      → Result SendError SendResult × Session × Site W × CodeStore
  send_staged path staged sess s store =
      let b = backup_target path sess s in
      elim (b.0) [
        | err e ↦ (err (sync_failed e), sess, b.1, store)
        | ok backup ↦
            apply_and_verify staged backup
              (elim backup [ none ↦ sess | some p ↦ record sess { backup = p } ]) b.1 store
      ]

  -- `Send`; `incoming` is the archive that came in, or the error of its key or its frames.
  unfoldable pub send :
      Str
      → Result SyncError (List Member)
      → Session
      → Site W
      → CodeStore
      → Result SendError SendResult × Session × Site W × CodeStore
  send path incoming sess s store =
      if not sess.accepted || not (is_upload sess.direction)
      then (
        err (sync_failed (bad_plan (codes "Upload this project's plan first."))),
        sess,
        s,
        store,
      )
      else if sess.finished
      then (err (sync_failed code_used), sess, s, store)
      else elim (incoming >>= λ members.
          copy_tar_members digest clean perm true (transfer_set sess.client sess.ops) members) [
            | err e ↦ (err (sync_failed e), sess, s, store)
            | ok staged ↦ send_staged path staged sess s store
          ]
