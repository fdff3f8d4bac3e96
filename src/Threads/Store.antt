-- ===== src/Threads/Store.antt =====
-- The operations of a configured thread store on threads and turns, the folders keyed by their path
-- below the root. The ids that MintID draws and the time are arguments; `trim_space` stands for
-- strings.TrimSpace, and `title` for TitleFromPrompt, which only cuts the prompt.
pub mod Turns
mod Tests
use pocket_coder.Prelude.{
  ℕ, zero, suc, ◌+◌, Bool, true, false, ◌&&◌, ◌||◌, not, List, [], ◌∷◌, ◌++◌, map, any, count,
  Option, none, some, Str, codes, length, get_last?, ltb, has_prefix, ◌==◌, nat_eq, list_eq,
  if◌then◌else◌,
}
use pocket_coder.Map.{Map, get, put, del, has}
use pocket_coder.Order.{sort}
use pocket_coder.Result.{Result, ok, err}
use pocket_coder.Threads.Names.{thread_dir, scope_dir, valid_id}
use pocket_coder.Threads.Folders.{
  Turn, ThreadManifest, Approval, approval_pending, approval_approved, approval_discarded, Thread,
  Folder, Store, StoreError, empty_folder, read_turn, check_manifest, read_manifest, find_folder,
  put_folder, turn_numbers, sorted_turn_ns, max_turn_n, placeholder, write_turn, approval_status,
  is_pending, blocks, with_value, prompt_required, unknown_thread, unknown_turn, bad_turn,
  pending_approval, scope_required, approvals_off, bad_approval, invalid_status, unknown_approval,
  already_resolved, write_failed,
}

module _ (trim_space : Str → Str) where
  unfoldable pub reserve_new_thread :
      (Str → Str)
      → Option Str
      → Option Str
      → Str
      → Str
      → ℕ
      → Str
      → Str
      → Str
      → Str
      → Store
      → Result StoreError (Str × Str) × Store
  reserve_new_thread title manifest_error turn_error id turn_id now scope prompt sha payload s =
      if trim_space prompt == [] then (err prompt_required, s) else elim manifest_error [
        | some e ↦ (err (write_failed e), s)
        | none ↦ elim turn_error [
          | some e ↦
              (err (write_failed e), record s { folders = del (thread_dir scope id) s.folders })
          | none ↦ (
            ok (id, turn_id),
            put_folder (thread_dir scope id)
                (record empty_folder {
                  manifest = some (record { id = id; title = title prompt; created_at = now });
                  turns = (1, some (placeholder turn_id sha prompt payload now)) ∷ [];
                })
                s,
          )
        ]
      ]

  -- The next number, once the folder is there and nothing blocks it.
  unfoldable pub append_turn :
      Option Str
      → Str
      → Str
      → Str
      → Str
      → Str
      → ℕ
      → Folder
      → Store
      → Result StoreError (ℕ × Str) × Store
  append_turn write_error dir turn_id prompt sha payload now f s =
      if length (sorted_turn_ns f) == 0
      then (err unknown_thread, s)
      else with_value (suc (max_turn_n f), turn_id)
          (write_turn write_error dir f (suc (max_turn_n f))
            (placeholder turn_id sha prompt payload now) s)

  unfoldable pub reserve_followup :
      Option Str
      → Str
      → ℕ
      → Str
      → Str
      → Str
      → Str
      → Str
      → Store
      → Result StoreError (ℕ × Str) × Store
  reserve_followup write_error turn_id now scope id prompt sha payload s =
      if not (valid_id id)
      then (err unknown_thread, s)
      else if trim_space prompt == []
      then (err prompt_required, s)
      else elim (find_folder (thread_dir scope id) s) [
        | none ↦ (err unknown_thread, s)
        | some f ↦
            if blocks s f
            then (err pending_approval, s)
            else append_turn write_error (thread_dir scope id) turn_id prompt sha payload now f s
      ]

  -- `persistTurn`, with the lineage where there is one.
  unfoldable pub persist_turn :
      Option Str
      → Option Str
      → ℕ
      → Str
      → ℕ
      → Turn
      → Option Str
      → Folder
      → Store
      → Result StoreError (Unit {0}) × Store
  persist_turn (some e) lineage_error now dir n t lineage f s = (err (write_failed e), s)
  persist_turn none lineage_error now dir n t lineage f s =
      let stamped : Turn = if t.time == 0 then record t { time = now } else t in
      let written : Folder = record f { turns = put n (some stamped) f.turns } in
      elim lineage [
        | none ↦ (ok tt, put_folder dir written s)
        | some raw ↦ elim lineage_error [
          | some e ↦ (err (write_failed e), put_folder dir written s)
          | none ↦ (ok tt, put_folder dir (record written { lineages = put n raw f.lineages }) s)
        ]
      ]

  unfoldable pub complete_turn :
      Option Str
      → Option Str
      → ℕ
      → Str
      → Str
      → ℕ
      → Turn
      → Option Str
      → Store
      → Result StoreError (Unit {0}) × Store
  complete_turn turn_error lineage_error now scope id n t lineage s =
      if not (valid_id id) || (ltb n 1 || (t.turn_id == [] || trim_space t.prompt == []))
      then (err bad_turn, s)
      else elim (find_folder (thread_dir scope id) s) [
        | none ↦ (err unknown_thread, s)
        | some f ↦
            if any (λ x. x == n) (sorted_turn_ns f)
            then persist_turn turn_error lineage_error now (thread_dir scope id) n t lineage f s
            else (err unknown_turn, s)
      ]

  unfoldable pub delete_scope : Str → Store → Result StoreError (Unit {0}) × Store
  delete_scope scope s =
      if trim_space scope == []
      then (err scope_required, s)
      else (ok tt, record s { folders = outside (scope_dir scope ++ (b'/' ∷ [])) s.folders })
    where
      outside : Str → Map Str Folder → Map Str Folder
      outside dir [] = []
      outside dir ((path, f) ∷ m) =
          let rest = outside dir m in if has_prefix path dir then rest else (path, f) ∷ rest

-- The last turn again from scratch; `removed` says whether the lineage's file could be removed, and
-- no error is returned where it could not.
unfoldable pub retry_turn :
    Option Str → Bool → Str → Str → ℕ → Folder → Store → Result StoreError (ℕ × Str × Str) × Store
retry_turn write_error removed dir new_sha now f s = elim (read_turn (max_turn_n f) f) [
  | none ↦ (err unknown_thread, s)
  | some cur ↦
      with_value (max_turn_n f, cur.turn_id, cur.prompt)
        (write_turn write_error dir
          (if removed then record f { lineages = del (max_turn_n f) f.lineages } else f)
          (max_turn_n f) (placeholder cur.turn_id new_sha cur.prompt [] now) s)
]

unfoldable pub begin_retry :
    Option Str → Bool → ℕ → Str → Str → Str → Store → Result StoreError (ℕ × Str × Str) × Store
begin_retry write_error removed now scope id new_sha s =
    if not (valid_id id)
    then (err unknown_thread, s)
    else elim (find_folder (thread_dir scope id) s) [
      | none ↦ (err unknown_thread, s)
      | some f ↦
          if ltb (max_turn_n f) 1
          then (err unknown_thread, s)
          else retry_turn write_error removed (thread_dir scope id) new_sha now f s
    ]

unfoldable pub read_turns : List ℕ → Folder → List Turn
read_turns [] f = []
read_turns (n ∷ ns) f =
    let rest = read_turns ns f in elim (read_turn n f) [ none ↦ rest | some t ↦ t ∷ rest ]

unfoldable pub latest_time : ℕ → List Turn → ℕ
latest_time created ts = elim (get_last? ts) [
  | none ↦ created
  | some t ↦ if t.time == 0 then created else t.time
]

unfoldable pub thread_of : Bool → ThreadManifest → List Turn → Folder → Thread
thread_of has_approvals m ts f = record {
  id = m.id;
  title = m.title;
  created_at = m.created_at;
  updated_at = latest_time m.created_at ts;
  turns = ts;
  approvals = if has_approvals then f.approvals else [];
}

unfoldable pub get_thread : Str → Str → Store → Result StoreError Thread
get_thread scope id s =
    if not (valid_id id) then err unknown_thread else elim (get (thread_dir scope id) s.folders) [
      | none ↦ err unknown_thread
      | some f ↦ elim (read_manifest f) [
        | none ↦ err unknown_thread
        | some m ↦
            if not (m.id == id) || length (read_turns (sorted_turn_ns f) f) == 0
            then err unknown_thread
            else ok (thread_of s.has_approvals m (read_turns (sorted_turn_ns f) f) f)
      ]
    ]

unfoldable pub delete_thread : Str → Str → Store → Store
delete_thread scope id s =
    if valid_id id then record s { folders = del (thread_dir scope id) s.folders } else s

unfoldable pub purge : Store → Store
purge s = record s { folders = [] }

unfoldable pub read_turn_lineage : Str → Str → ℕ → Store → Option Str
read_turn_lineage scope id n s =
    if not (valid_id id) || ltb n 1
    then none
    else elim (get (thread_dir scope id) s.folders) [ none ↦ none | some f ↦ get n f.lineages ]
