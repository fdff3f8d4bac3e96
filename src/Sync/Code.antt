-- ===== src/Sync/Code.antt =====
-- server/internal/sync/code.go: one-time codes and live sessions. The store's maps hold pointers:
-- a session stands on a heap at its address, because handlers keep the pointer after the store has
-- dropped it; code entries never leave the lock, so the map holds their values. Time is in
-- nanoseconds. `sha256_hex` and `to_upper` stand for crypto/sha256 with encoding/hex, and for
-- unicode.ToUpper; a code is a list of runes.
pub mod Text
pub mod Invariant
pub mod Budget
pub mod Reachable
pub mod Sessions
mod Tests
use pocket_coder.Prelude.{
  ℕ, suc, ◌+◌, ◌*◌, Bool, true, false, ◌&&◌, ◌||◌, not, List, [], ◌∷◌, Option, none, some, Str,
  codes, ltb, leb, ◌==◌, nat_eq, list_eq, if◌then◌else◌,
}
use pocket_coder.Map.{Map, get, put, del, get_or}
use pocket_coder.Result.{Result, ok, err}
use pocket_coder.Sync.Manifest.{Manifest}
use pocket_coder.Sync.Diff.{Op, Direction, other_direction}
use pocket_coder.Sync.Errors.{
  SyncError, code_invalid, code_expired, code_used, code_wrong_project, sync_running,
  session_unknown, session_expired, io,
}

-- Ten minutes.
abbrev pub code_ttl : ℕ
code_ttl = 10 * 60 * 1000000000

abbrev pub max_attempts : ℕ
max_attempts = 10

pub record Session : Type 0 where
  pub id : Str
  pub project : Str
  pub nonce : Str
  pub branch : Str
  pub commit : Str
  pub expires_at : ℕ
  pub phase : Option Str
  pub code_hash : Str
  pub code : Str
  pub container : Str
  pub dir : Str
  pub direction : Direction
  pub client : Manifest
  pub server : Manifest
  pub ops : List Op
  pub accepted : Bool
  pub finished : Bool
  pub backup : Str

pub record CodeEntry : Type 0 where
  pub hash : Str
  pub plain : Str
  pub project : Str
  pub expires : ℕ
  pub attempts : ℕ
  pub used : Bool
  pub session_id : Str
  pub unknown : Bool

pub record CodeStore : Type 0 where
  pub entries : Map Str CodeEntry
  pub by_project : Map Str Str
  pub sessions : Map Str ℕ
  pub heap : Map ℕ Session
  -- The next free address.
  pub next : ℕ

unfoldable pub new_code_store : CodeStore
new_code_store = record { entries = []; by_project = []; sessions = []; heap = []; next = 0 }

-- `s.sessions[id]`, through the pointer.
abbrev pub session_at : CodeStore → Str → Option Session
session_at s id = elim (get id s.sessions) [ none ↦ none | some a ↦ get a s.heap ]

abbrev pub no_manifest : Manifest
no_manifest = record { files = [] }

-- Whether a sync of the old code's session is still running.
unfoldable pub is_running : ℕ → Option Session → Bool
is_running now none = false
is_running now (some sess) = not sess.finished && ltb now sess.expires_at

-- What `Generate` forgets where the project has a code (`id != ""`): its old entry and the session
-- that it had opened.
unfoldable pub drop_old : Str → CodeStore → CodeStore
drop_old hash s = if hash == [] then s else elim (get hash s.entries) [
  | none ↦ record s { entries = del hash s.entries }
  | some old ↦
      if old.session_id == []
      then record s { entries = del hash s.entries }
      else record s { sessions = del old.session_id s.sessions; entries = del hash s.entries }
]

-- Whether `Generate` refuses because of the project's present code.
unfoldable pub is_busy : ℕ → Str → CodeStore → Bool
unfolding is_running
is_busy now hash s = if hash == [] then false else elim (get hash s.entries) [
  | none ↦ false
  | some old ↦ not (old.session_id == []) && is_running now (session_at s old.session_id)
]

unfoldable pub fresh_entry : Str → Str → Str → ℕ → CodeEntry
fresh_entry hash plain project now = record {
  hash = hash;
  plain = plain;
  project = project;
  expires = now + code_ttl;
  attempts = 0;
  used = false;
  session_id = [];
  unknown = false;
}

unfoldable pub register : Str → Str → Str → ℕ → CodeStore → CodeStore
unfolding fresh_entry
register hash plain project now s = record s {
  entries = put hash (fresh_entry hash plain project now) s.entries;
  by_project = put project hash s.by_project;
}

-- `codeEntry{hash: hash, unknown: true}`
unfoldable pub unknown_entry : Str → CodeEntry
unknown_entry hash = record {
  hash = hash;
  plain = [];
  project = [];
  expires = 0;
  attempts = 0;
  used = false;
  session_id = [];
  unknown = true;
}

unfoldable pub fail_attempt :
    CodeEntry → Str → SyncError → CodeStore → Result SyncError ℕ × CodeStore
fail_attempt e hash error s =
    if leb max_attempts (suc e.attempts)
    then (err error, record s { entries = del hash s.entries })
    else (
      err error,
      record s { entries = put hash (record e { attempts = suc e.attempts }) s.entries },
    )

-- The session that an entry opens, once its nonce and id are drawn.
unfoldable pub open_session :
    CodeEntry
    → Str
    → Str
    → Str
    → Str
    → Str
    → Str
    → Str
    → Str
    → CodeStore
    → Result SyncError ℕ × CodeStore
open_session e hash nonce id project container dir branch commit s =
    let sess : Session = record {
      id = id;
      project = project;
      nonce = nonce;
      branch = branch;
      commit = commit;
      expires_at = e.expires;
      phase = none;
      code_hash = e.hash;
      code = e.plain;
      container = container;
      dir = dir;
      direction = other_direction [];
      client = no_manifest;
      server = no_manifest;
      ops = [];
      accepted = false;
      finished = false;
      backup = [];
    } in
    (
      ok s.next,
      record s {
        entries = put hash (record e { session_id = id }) s.entries;
        sessions = put id s.next s.sessions;
        heap = put s.next sess s.heap;
        next = suc s.next;
      },
    )

-- The two draws of `NewNonce`, either of which may fail.
unfoldable pub draw_session :
    CodeEntry
    → Str
    → Option Str
    → Option Str
    → Str
    → Str
    → Str
    → Str
    → Str
    → CodeStore
    → Result SyncError ℕ × CodeStore
unfolding open_session
draw_session e hash none id project container dir branch commit s = (err (io (codes "nonce")), s)
draw_session e hash (some nonce) none project container dir branch commit s =
    (err (io (codes "nonce")), s)
draw_session e hash (some nonce) (some id) project container dir branch commit s =
    open_session e hash nonce id project container dir branch commit s

-- The address of the entry's session, if the session is still live and not finished.
unfoldable pub live_session : CodeStore → CodeEntry → Option ℕ
live_session s e = if e.session_id == [] then none else elim (get e.session_id s.sessions) [
  | none ↦ none
  | some a ↦ elim (get a s.heap) [
    | none ↦ none
    | some sess ↦ if sess.finished then none else some a
  ]
]

-- `Lookup` from the entry on.
unfoldable pub lookup_entry :
    ℕ
    → Option Str
    → Option Str
    → Str
    → Str
    → Str
    → Str
    → Str
    → Str
    → CodeEntry
    → CodeStore
    → Result SyncError ℕ × CodeStore
unfolding fail_attempt live_session draw_session
lookup_entry now nonce id hash project container dir branch commit e s =
    if e.unknown
    then fail_attempt e hash code_invalid s
    else if ltb e.expires now
    then fail_attempt e hash code_expired s
    else if not (e.project == project)
    then fail_attempt e hash (code_wrong_project e.project project) s
    else elim (live_session s e) [
      | some a ↦ (ok a, s)
      | none ↦
          if e.used || e.plain == []
          then (err code_used, s)
          else draw_session e hash nonce id project container dir branch commit s
    ]

-- `e := s.entries[hash]`, where a code never generated gets an entry that tallies the guesses.
unfoldable pub lookup_hash :
    ℕ
    → Option Str
    → Option Str
    → Str
    → Str
    → Str
    → Str
    → Str
    → Str
    → CodeStore
    → Result SyncError ℕ × CodeStore
unfolding lookup_entry unknown_entry
lookup_hash now nonce id hash project container dir branch commit s = elim (get hash s.entries) [
  | none ↦
      lookup_entry now nonce id hash project container dir branch commit (unknown_entry hash)
        (record s { entries = put hash (unknown_entry hash) s.entries })
  | some e ↦ lookup_entry now nonce id hash project container dir branch commit e s
]

-- `Session`: an expired session is marked finished and refused.
unfoldable pub find_session : ℕ → Str → CodeStore → Result SyncError ℕ × CodeStore
find_session now id s = elim (get id s.sessions) [
  | none ↦ (err session_unknown, s)
  | some a ↦ elim (get a s.heap) [
    | none ↦ (err session_unknown, s)
    | some sess ↦
        if ltb sess.expires_at now
        then (
          err session_expired,
          record s { heap = put a (record sess { finished = true }) s.heap },
        )
        else (ok a, s)
  ]
]

-- `e.plain = ""`
unfoldable pub forget_plain : Str → CodeStore → CodeStore
forget_plain hash s = elim (get hash s.entries) [
  | none ↦ s
  | some e ↦ record s { entries = put hash (record e { plain = [] }) s.entries }
]

unfoldable pub free_project : Session → CodeStore → CodeStore
free_project sess s =
    if get_or sess.project [] s.by_project == sess.code_hash
    then record s { by_project = del sess.project s.by_project }
    else s

unfoldable pub finish : Str → CodeStore → CodeStore
unfolding forget_plain free_project
finish id s = elim (session_at s id) [
  | none ↦ s
  | some sess ↦
      let t = free_project sess (forget_plain sess.code_hash s) in
      record t { sessions = del id t.sessions }
]

unfoldable pub mark_used : Session → CodeStore → CodeStore
mark_used sess s = elim (get sess.code_hash s.entries) [
  | none ↦ s
  | some e ↦ record s { entries = put sess.code_hash (record e { used = true }) s.entries }
]

-- The loop of `ProjectStatus`, over the sessions in the order of the walk.
status_of : ℕ → Str → Option Session → Option Str
status_of now project none = none
status_of now project (some sess) =
    if not (sess.project == project) || (sess.finished || ltb sess.expires_at now)
    then none
    else sess.phase

unfoldable pub first_status : ℕ → Str → Map ℕ Session → Map Str ℕ → Str
unfolding status_of
first_status now project heap [] = codes "idle"
first_status now project heap ((id, a) ∷ sessions) =
    let rest = first_status now project heap sessions in
    elim (status_of now project (get a heap)) [ none ↦ rest | some phase ↦ phase ]

unfoldable pub project_status : ℕ → Str → CodeStore → Str
unfolding first_status
project_status now project s = first_status now project s.heap s.sessions

module _ (to_upper : ℕ → ℕ) where
  unfoldable pub normalize_code : Str → Str
  normalize_code [] = []
  normalize_code (c ∷ code) =
      let rest = normalize_code code in
      let r = to_upper c in
      if r == b'-' || (r == b' ' || (r == b'\t' || r == b'\n'))
      then rest
      else if r == b'I' || r == b'L'
      then b'1' ∷ rest
      else if r == b'O'
      then b'0' ∷ rest
      else r ∷ rest

module _ (sha256_hex : Str → Str) (to_upper : ℕ → ℕ) where
  unfoldable pub hash_code : Str → Str
  unfolding normalize_code
  hash_code code = sha256_hex (normalize_code to_upper code)

  -- `plain` is what `newCode` drew, `none` where the random source failed.
  unfoldable pub generate :
      Option Str → ℕ → Str → CodeStore → Result SyncError (Str × ℕ) × CodeStore
  generate none now project s = (err (io (codes "rand")), s)
  generate (some plain) now project s =
      let old = get_or project [] s.by_project in
      if is_busy now old s then (err sync_running, s) else (
        ok (plain, now + code_ttl),
        register (hash_code plain) plain project now (drop_old old s),
      )

  unfoldable pub lookup :
      ℕ
      → Option Str
      → Option Str
      → Str
      → Str
      → Str
      → Str
      → Str
      → Str
      → CodeStore
      → Result SyncError ℕ × CodeStore
  unfolding lookup_hash hash_code
  lookup now nonce id code project container dir branch commit s =
      lookup_hash now nonce id (hash_code code) project container dir branch commit s
