-- ===== src/Sync/Service/Tests.antt =====
-- Uploads to a small container: a map of files whose commands succeed, and whose manifest cannot be
-- read back.
use pocket_coder.Prelude.{
  ℕ, Bool, ◌||◌, true, false, List, [], ◌∷◌, ◌++◌, Option, none, some, ◌≡◌, ◌≢◌, refl, ap, ◌∙◌, Str,
  codes, any, All, inl, inr, ◌==◌, nat_eq, list_eq, list_beq, list_beq_iff, if◌then◌else◌, arith,
  Bool-cases, has_prefix, trim_prefix, has_byte, split,
}
use pocket_coder.Map.{get, put, del, has}
use pocket_coder.Map.Laws.{get-del}
use pocket_coder.Order.{sort, str_ltb, insert}
use pocket_coder.Result.{Result, ok, err}
use pocket_coder.Sync.Manifest.{Entry, index, type_file, valid_path}
use pocket_coder.Sync.Diff.{
  upload, diff, existing_entries, transfer_set, existing_from, transfer_from,
}
use pocket_coder.Sync.Errors.{io}
use pocket_coder.Sync.Code.{CodeStore, Session, new_code_store}
use pocket_coder.Sync.Archive.{
  obstructed, is_below, can_read, File, Tree, Member, regular, other_kind, member_name,
  copy_tar_members, copy_members, check_missing, write_tar_member,
}
use pocket_coder.Sync.Backup.{
  Archive, backup_entries, backup_entry, backup_members, backup_member, write_backup, unpack,
  unpack_named, unpack_member, backup_name, check_hashes, extract_backup, kind_of,
}
use pocket_coder.Sync.Backup.Edits.{Describes}
use pocket_coder.Sync.Service.Interface.{Container, IsFaithful, IsRead}
use pocket_coder.Sync.Service.{
  Site, SendError, sync_failed, SendResult, payload, deleted_paths, added_paths, staged_entries,
  as_io, upload_files, remove_paths, and_then, apply, verify, dropped_backups, del_names,
  archive_names, keep_archive, backup_target, restore, rollback, undo, sent, apply_and_verify,
  send_staged, send, plan,
}
use pocket_coder.Sync.Service.Planned.{IsPlan, plan-IsPlan}
use pocket_coder.Sync.Service.Sent.{IsSent, send-IsSent}
use pocket_coder.Sync.Service.Restored.{send-undoes}

-- The hash of a text is the text, and paths are clean.
abbrev same : Str → Str
same s = s

-- The umask clears no bit.
abbrev same_mode : Str → ℕ → ℕ
same_mode type mode = mode

read_as : Str → Option File → Member
read_as p none = record { name = p; kind = other_kind; mode = 0; content = [] }
read_as p (some f) = record { name = p; kind = kind_of f.type; mode = f.mode; content = f.content }

read_one : Tree → Str → Member
read_one t p = read_as p (get (trim_prefix p (codes "./")) t)

read_all : Tree → List Str → List Member
read_all t [] = []
read_all t (p ∷ ps) = read_one t p ∷ read_all t ps

del_all : List Str → Tree → Tree
del_all [] t = t
del_all (p ∷ ps) t = del p (del_all ps t)

abbrev box : Container Tree
box = record {
  tree = λ t. t;
  manifest = λ t. err (io (codes "timeout"));
  git = λ t. ok (codes "main", codes "c0ffee");
  read_tar = read_all;
  upload = λ t fs. (ok tt, fs ++ t);
  remove = λ t ps. (ok tt, del_all ps t);
}

get-append-none : (p : Str) (fs t : Tree) → has p fs ≡ false → get p (fs ++ t) ≡ get p t
unfolding get
get-append-none p [] t h = refl
get-append-none p ((q, f) ∷ fs) t h = ground (arith, get-append-none p fs t)

get-append-some : (p : Str) (f : File) (fs t : Tree) → get p fs ≡ some f → get p (fs ++ t) ≡ some f
unfolding get
get-append-some p f [] t h = cc
get-append-some p f ((q, g) ∷ fs) t h = elim (Bool-cases (q == p)) [
  | inl here ↦ rw here (rw here at h)
  | inr apart ↦ rw apart (get-append-some p f fs t (rw apart at h))
]

get-del_all :
    (p : Str) (ps : List Str) (t : Tree)
    → get p (del_all ps t) ≡ (if any (λ q. q == p) ps then none else get p t)
unfolding del_all
get-del_all p [] t = refl
get-del_all p (q ∷ ps) t = ground (arith, get-del q p (del_all ps t), get-del_all p ps t)

read_one-IsRead : (t : Tree) (p : Str) → IsRead (member_name same same same_mode) t (read_one t p)
unfolding read_one read_as member_name kind_of
read_one-IsRead t p = at (get (trim_prefix p (codes "./")) t) refl
  where
    at :
        (o : Option File)
        → get (trim_prefix p (codes "./")) t ≡ o
        → IsRead (member_name same same same_mode) t (read_as p o)
    at none gone = inl refl
    at (some f) there = inr (f, there, record { content = refl; linked = ground arith })

read_all-IsRead :
    (t : Tree) (ps : List Str) → All (IsRead (member_name same same same_mode) t) (read_all t ps)
unfolding read_all
read_all-IsRead t [] = tt
read_all-IsRead t (p ∷ ps) = (read_one-IsRead t p, read_all-IsRead t ps)

box-IsFaithful : IsFaithful (member_name same same same_mode) box
box-IsFaithful = record {
  reads = read_all-IsRead;
  upload_other = λ t fs p h. get-append-none p fs t h;
  upload_done = λ t fs p f z h. get-append-some p f fs t h;
  remove_other = λ t ps p h. get-del_all p ps t ∙ (rw h refl);
  remove_done = λ t ps p z h. get-del_all p ps t ∙ (rw h refl);
}

abbrev entry : Str → Entry
entry h = record { path = codes "a"; size = 1; mode = 420; type = type_file; hash = h }

abbrev session : Session
session = record {
  id = codes "s";
  project = codes "o/r";
  nonce = [];
  branch = codes "main";
  commit = codes "c0ffee";
  expires_at = 9;
  phase = none;
  code_hash = [];
  code = [];
  container = [];
  dir = [];
  direction = upload;
  client = record { files = entry (codes "2") ∷ [] };
  server = record { files = entry (codes "1") ∷ [] };
  ops =
      diff (record { files = entry (codes "2") ∷ [] }) (record { files = entry (codes "1") ∷ [] });
  accepted = true;
  finished = false;
  backup = [];
}

abbrev before : Site Tree
before = record {
  world = (codes "a", record { type = type_file; mode = 420; content = codes "1" }) ∷ [];
  archives = [];
}

abbrev incoming : List Member
incoming = record { name = codes "a"; kind = regular; mode = 420; content = codes "2" } ∷ []

box-Describes : Describes same (index session.server) before.world
unfolding index get list_beq valid_path has_prefix put has_byte split
box-Describes = record {
  there = λ p e h. elim (Bool-cases (codes "a" == p)) [
    | inl here ↦
        let z : some (entry (codes "1")) ≡ some e = rw here at h in
        let is : entry (codes "1") ≡ e = cc in
        record {
          content = codes "1";
          here = rw (here, ← is) refl;
          hashed = rw (← is) refl;
          safe = rw (← (list_beq_iff (codes "a") p).0 here) refl;
          relative = λ l. refl;
        }
    | inr apart ↦ absurd (let z : ◌≡◌ {A = Option Entry} none (some e) = rw apart at h in cc)
  ];
  gone = λ p h. elim (Bool-cases (codes "a" == p)) [
    | inl here ↦ absurd (let z : some (entry (codes "1")) ≡ none = rw here at h in cc)
    | inr apart ↦ rw apart refl
  ];
}

abbrev lost : Result SendError SendResult × Session × Site Tree × CodeStore
lost = send box same same same_mode (codes "b1") (ok incoming) session before new_code_store

lost_test : lost.0 ≡ err (sync_failed (io (codes "timeout")))
unfolding can_read send send_staged apply_and_verify sent undo rollback restore backup_target
    keep_archive archive_names del_names dropped_backups verify apply and_then remove_paths
    upload_files as_io staged_entries added_paths deleted_paths payload copy_tar_members
    copy_members check_missing obstructed is_below write_tar_member member_name backup_entries
    backup_entry backup_members backup_member write_backup unpack unpack_named unpack_member
    backup_name check_hashes extract_backup diff index get put del sort insert str_ltb list_beq
    existing_entries transfer_set existing_from transfer_from valid_path has_prefix has_byte split
    read_all read_one read_as del_all trim_prefix kind_of
lost_test = refl

affected_test : existing_entries session.server session.ops ≢ []
unfolding existing_entries existing_from diff index get put sort insert str_ltb list_beq
affected_test h = cc

send-undoes_example : get (codes "a") (lost.2).world ≡ get (codes "a") before.world
send-undoes_example =
    send-undoes box same same same_mode box-IsFaithful (λ p h. refl) (codes "b1") (ok incoming)
      session lost.1 before lost.2 new_code_store lost.3 (io (codes "timeout")) refl box-Describes
      affected_test
      (ap (λ (r : Result SendError SendResult). (r, lost.1, lost.2, lost.3)) lost_test) (codes "a")

-- The same upload to an empty container only adds a file. There is no backup, and the file stays.
abbrev added_only : Session
added_only = record session {
  server = record { files = [] };
  ops = diff session.client (record { files = [] });
}

abbrev kept : Result SendError SendResult × Session × Site Tree × CodeStore
kept =
    send box same same same_mode (codes "b1") (ok incoming) added_only
      (record before { world = [] }) new_code_store

kept_test :
    (kept.0 ≡ err (sync_failed (io (codes "timeout"))))
    × (get (codes "a") (kept.2).world
        ≡ some (record { type = type_file; mode = 420; content = codes "2" }))
unfolding can_read send send_staged apply_and_verify sent undo rollback restore backup_target
    keep_archive archive_names del_names dropped_backups verify apply and_then remove_paths
    upload_files as_io staged_entries added_paths deleted_paths payload copy_tar_members
    copy_members check_missing obstructed is_below write_tar_member member_name backup_entries
    backup_entry backup_members backup_member write_backup unpack unpack_named unpack_member
    backup_name check_hashes extract_backup diff index get put del sort insert str_ltb list_beq
    existing_entries transfer_set existing_from transfer_from valid_path has_prefix has_byte split
    read_all read_one read_as del_all trim_prefix kind_of
kept_test = (refl, refl)

-- A container whose manifest is the laptop's after the upload.
abbrev read_back : Container Tree
read_back = record box { manifest = λ t. ok session.client }

send-IsSent_example :
    IsSent read_back session new_code_store before
      (send read_back same same same_mode (codes "b1") (ok incoming) session before new_code_store)
send-IsSent_example =
    send-IsSent read_back same same same_mode (codes "b1") (ok incoming) session before
      new_code_store

abbrev fresh : Session
fresh = record session { accepted = false }

plan-IsPlan_example :
    IsPlan read_back before.world fresh upload session.client new_code_store
      (plan read_back before.world fresh upload session.client new_code_store)
plan-IsPlan_example = plan-IsPlan read_back before.world fresh upload session.client new_code_store

-- The tree after the file was overwritten.
abbrev after : Tree
after = put (codes "a") (record { type = type_file; mode = 420; content = codes "2" }) before.world

abbrev named : Str → Bool
named p = has p before.world || any (λ op. op.path == p) (diff session.client session.server)
