-- ===== src/Sync/Service/Planned.antt =====
-- What planning leaves of a session.
use pocket_coder.Prelude.{
  ◌&&◌, false, true, false, ◌||◌, not, List, some, ◌≡◌, refl, Str, codes, ◌==◌, list_eq, nat_eq,
  list_beq_iff, arith, if-branches,
}
use pocket_coder.Result.{Result, ok, err}
use pocket_coder.Sync.Manifest.{Manifest, NormalizeError, normalize}
use pocket_coder.Sync.Diff.{Op, Direction, valid_direction, plan_ops}
use pocket_coder.Sync.Errors.{SyncError, bad_plan}
use pocket_coder.Sync.Code.{CodeStore, Session, mark_used}
use pocket_coder.Sync.Service.Interface.{Container}
use pocket_coder.Sync.Service.{plan_ready, plan_locked, plan, phase_of}

module _ {W : Type 0} (c : Container W) where
  abbrev Out : Type 0
  Out = Result SyncError (Manifest × List Op) × Session × CodeStore

  -- Why a plan may be refused.
  pub data Refusal (w : W) (sess : Session) (direction : Direction) (client : Manifest)
      : Type 0 where
    unknown_direction : valid_direction direction ≡ false → Refusal w sess direction client
    malformed : (e : NormalizeError) → normalize client ≡ err e → Refusal w sess direction client
    planned_before : sess.accepted ≡ true → Refusal w sess direction client
    unread_tree : (e : SyncError) → c.manifest w ≡ err e → Refusal w sess direction client
    unread_git : (e : SyncError) → c.git w ≡ err e → Refusal w sess direction client
    moved :
        (branch commit : Str)
        → c.git w ≡ ok (branch, commit)
        → (branch == sess.branch && commit == sess.commit) ≡ false
        → Refusal w sess direction client

  -- A plan, or a refusal with its reason that changes nothing.
  pub data IsPlan (w : W) (sess : Session) (direction : Direction) (client : Manifest)
      (store : CodeStore) : Out → Type 0 where
    is_plan :
        (m server : Manifest)
        → valid_direction direction ≡ true
        → normalize client ≡ ok m
        → sess.accepted ≡ false
        → c.manifest w ≡ ok server
        → c.git w ≡ ok (sess.branch, sess.commit)
        → IsPlan w sess direction client store (
          ok (server, plan_ops direction m server),
          record sess {
            client = m;
            server = server;
            ops = plan_ops direction m server;
            direction = direction;
            accepted = true;
            phase = some (phase_of direction);
          },
          mark_used sess store,
        )
    is_refused :
        (e : SyncError)
        → Refusal w sess direction client
        → IsPlan w sess direction client store (err e, sess, store)

  plan_locked-IsPlan :
      (w : W) (sess : Session) (direction : Direction) (client m : Manifest) (store : CodeStore)
      → valid_direction direction ≡ true
      → normalize client ≡ ok m
      → IsPlan w sess direction client store (plan_locked c w sess direction m store)
  unfolding plan_locked plan_ready
  plan_locked-IsPlan w sess direction client m store valid norm =
      if-branches P sess.accepted _ _ (λ again. is_refused _ (planned_before again))
        (λ fresh. scanned fresh (c.manifest w) refl)
    where
      P : Out → Type 0
      P = IsPlan w sess direction client store

      read :
          (server : Manifest) (r : Result SyncError (Str × Str))
          → sess.accepted ≡ false
          → c.manifest w ≡ ok server
          → c.git w ≡ r
          → P (elim r as (λ _. Out) [
            | err e ↦ (err e, sess, store)
            | ok git ↦ plan_ready sess direction m server git.0 git.1 store
          ])
      read server (err e) fresh there is = is_refused e (unread_git e is)
      read server (ok (branch, commit)) fresh there is =
          if-branches P (not (branch == sess.branch) || not (commit == sess.commit)) _ _
            (λ other. is_refused _ (moved branch commit is (ground (arith, other))))
            (λ same.
              let b : branch ≡ sess.branch =
                ground (arith, same, list_beq_iff branch sess.branch) in
              let k : commit ≡ sess.commit =
                ground (arith, same, list_beq_iff commit sess.commit) in
              is_plan m server valid norm fresh there (rw (is, b, k) refl))

      scanned :
          (fresh : sess.accepted ≡ false) (r : Result SyncError Manifest)
          → c.manifest w ≡ r
          → P (elim r as (λ _. Out) [
            | err e ↦ (err e, sess, store)
            | ok server ↦ elim (c.git w) [
              | err e ↦ (err e, sess, store)
              | ok git ↦ plan_ready sess direction m server git.0 git.1 store
            ]
          ])
      scanned fresh (err e) is = is_refused e (unread_tree e is)
      scanned fresh (ok server) is = read server (c.git w) fresh is refl

  -- Planning succeeds exactly with a known direction, a well-formed laptop manifest, a session that
  -- has no plan yet, and a readable container on the session's branch and commit. The plan is then the
  -- difference of the normalized laptop manifest and the container's in that direction, it is the
  -- session's, with its phase, and the code is used. It is refused only where one of these fails, and
  -- leaves the session and the code store as they were.
  pub plan-IsPlan :
      (w : W) (sess : Session) (direction : Direction) (client : Manifest) (store : CodeStore)
      → IsPlan w sess direction client store (plan c w sess direction client store)
  unfolding plan
  plan-IsPlan w sess direction client store =
      if-branches (IsPlan w sess direction client store) (not (valid_direction direction)) _ _
        (λ bad. is_refused _ (unknown_direction (ground (arith, bad))))
        (λ good. normed (ground (arith, good)) (normalize client) refl)
    where
      normed :
          (valid : valid_direction direction ≡ true) (r : Result NormalizeError Manifest)
          → normalize client ≡ r
          → IsPlan w sess direction client store (elim r as (λ _. Out) [
            | err e ↦ (err (bad_plan (codes "The laptop manifest is malformed.")), sess, store)
            | ok m ↦ plan_locked c w sess direction m store
          ])
      normed valid (err e) is = is_refused _ (malformed e is)
      normed valid (ok m) is = plan_locked-IsPlan w sess direction client m store valid is
