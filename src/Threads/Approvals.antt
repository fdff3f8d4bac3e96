-- ===== src/Threads/Approvals.antt =====
-- The approvals of a thread: adding, listing and resolving them.
pub mod Once
mod Tests
use pocket_coder.Prelude.{
  ℕ, zero, suc, ◌+◌, Bool, true, false, ◌&&◌, ◌||◌, not, List, [], ◌∷◌, ◌++◌, map, any, count,
  Option, none, some, Str, codes, length, get_last?, ltb, has_prefix, ◌==◌, nat_eq, list_eq,
  if◌then◌else◌,
}
use pocket_coder.Map.{Map, get, put, del, has}
use pocket_coder.Order.{sort}
use pocket_coder.Result.{Result, ok, err}
use pocket_coder.Threads.Names.{thread_dir, scope_dir, valid_id}
use pocket_coder.Threads.Folders.{
  Turn, ThreadManifest, Approval, approval_pending, approval_approved, approval_discarded, Thread,
  Folder, Store, StoreError, empty_folder, read_turn, check_manifest, read_manifest, find_folder,
  put_folder, turn_numbers, sorted_turn_ns, max_turn_n, placeholder, write_turn, approval_status,
  is_pending, blocks, with_value, prompt_required, unknown_thread, unknown_turn, bad_turn,
  pending_approval, scope_required, approvals_off, bad_approval, invalid_status, unknown_approval,
  already_resolved, write_failed,
}

unfoldable pub write_approvals :
    Option Str → Str → Folder → List Approval → Store → Result StoreError (Unit {0}) × Store
write_approvals (some e) dir f items s = (err (write_failed e), s)
write_approvals none dir f items s = (ok tt, put_folder dir (record f { approvals = items }) s)

unfoldable pub add_approval :
    Option Str → Str → Approval → Store → Result StoreError (Unit {0}) × Store
add_approval write_error id a s =
    if not s.has_approvals
    then (err approvals_off, s)
    else if not (valid_id id) || (a.id == [] || a.tool == [])
    then (err bad_approval, s)
    else elim (find_folder (thread_dir [] id) s) [
      | none ↦ (err unknown_thread, s)
      | some f ↦
          write_approvals write_error (thread_dir [] id) f
            (f.approvals ++ (record a { status = approval_status a }) ∷ []) s
    ]

unfoldable pub approval_list : Str → Store → Result StoreError (List Approval)
approval_list id s =
    if not s.has_approvals
    then err approvals_off
    else if not (valid_id id)
    then err unknown_thread
    else elim (find_folder (thread_dir [] id) s) [
      | none ↦ err unknown_thread
      | some f ↦ ok f.approvals
    ]

-- The walk of `ResolveApproval`: the first item of that id.
unfoldable pub find_item : Str → List Approval → Option Approval
find_item id [] = none
find_item id (a ∷ items) = let rest = find_item id items in if a.id == id then some a else rest

unfoldable pub resolve_item : Str → Str → ℕ → List Approval → List Approval
resolve_item id status now [] = []
resolve_item id status now (a ∷ items) =
    let rest = resolve_item id status now items in
    if a.id == id then record a { status = status; resolved_at = now } ∷ items else a ∷ rest

unfoldable pub resolve_in :
    Option Str → ℕ → Str → Str → Str → Folder → Store → Result StoreError (Unit {0}) × Store
resolve_in write_error now dir id status f s = elim (find_item id f.approvals) [
  | none ↦ (err unknown_approval, s)
  | some a ↦
      if not (is_pending a)
      then (err already_resolved, s)
      else write_approvals write_error dir f (resolve_item id status now f.approvals) s
]

unfoldable pub resolve_approval :
    Option Str → ℕ → Str → Str → Str → Store → Result StoreError (Unit {0}) × Store
resolve_approval write_error now thread_id id status s =
    if not s.has_approvals
    then (err approvals_off, s)
    else if not (valid_id thread_id)
    then (err unknown_thread, s)
    else if not (status == approval_approved || status == approval_discarded)
    then (err invalid_status, s)
    else elim (get (thread_dir [] thread_id) s.folders) [
      | none ↦ (err unknown_approval, s)
      | some f ↦ resolve_in write_error now (thread_dir [] thread_id) id status f s
    ]
