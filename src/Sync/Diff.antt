-- ===== src/Sync/Diff.antt =====
-- server/internal/sync: the operations that turn one tree into another (`Diff`, `Counts`,
-- `TransferSet` of manifest.go; `Compare` of backup.go; `PlanOps`, `existingEntries` of service.go).
pub mod Pathwise
pub mod Applied
pub mod Compared
pub mod Counted
use pocket_coder.Prelude.{
  ℕ, suc, ◌+◌, Bool, true, false, ◌&&◌, ◌||◌, not, List, [], ◌∷◌, ◌++◌, Option, none, some, Str,
  length, ◌==◌, nat_eq, list_eq, if◌then◌else◌,
}
use pocket_coder.Map.{Map, get, has}
use pocket_coder.Order.{sort, str_ltb}
use pocket_coder.Result.{Result, ok, err, ◌>>◌}
use pocket_coder.Sync.Manifest.{Entry, Manifest, index}

-- The action strings; `other` is any string that a hand-made archive may hold.
pub data Action : Type 0 where
  added overwritten deleted : Action
  other : Str → Action

pub record Op : Type 0 where
  pub path : Str
  pub action : Action

abbrev pub differs : Entry → Entry → Bool
differs se te = not (se.hash == te.hash) || (not (se.mode == te.mode) || not (se.type == te.type))

-- The loop over the source's index.
unfoldable pub diff_source : Map Str Entry → Map Str Entry → List Op
diff_source dst [] = []
diff_source dst ((p, se) ∷ src) =
    let ops = diff_source dst src in
    elim (get p dst) [
      | none ↦ record { path = p; action = added } ∷ ops
      | some te ↦ if differs se te then record { path = p; action = overwritten } ∷ ops else ops
    ]

-- The loop over the target's index.
unfoldable pub diff_target : Map Str Entry → Map Str Entry → List Op
diff_target src [] = []
diff_target src ((p, te) ∷ dst) =
    let ops = diff_target src dst in
    if has p src then ops else record { path = p; action = deleted } ∷ ops

abbrev pub op_before : Op → Op → Bool
op_before a b = str_ltb a.path b.path

unfoldable pub diff : Manifest → Manifest → List Op
unfolding diff_source diff_target
diff source target =
    sort op_before
      (diff_source (index target) (index source) ++ diff_target (index source) (index target))

pub record Tally : Type 0 where
  pub add : ℕ
  pub overwrite : ℕ
  pub delete : ℕ

tally : Action → Tally → Tally
tally added t = record t { add = suc t.add }
tally overwritten t = record t { overwrite = suc t.overwrite }
tally deleted t = record t { delete = suc t.delete }
tally (other s) t = t

counts_from : Tally → List Op → Tally
unfolding tally
counts_from t [] = t
counts_from t (op ∷ ops) = counts_from (tally op.action t) ops

unfoldable pub counts : List Op → Tally
unfolding counts_from
counts = counts_from (record { add = 0; overwrite = 0; delete = 0 })

abbrev pub is_deleted : Action → Bool
is_deleted deleted = true
is_deleted _ = false

abbrev pub is_added : Action → Bool
is_added added = true
is_added _ = false

-- `if e, ok := byPath[op.Path]; ok { out = append(out, e) }`
unfoldable pub append_found : Option Entry → List Entry → List Entry
append_found none out = out
append_found (some e) out = e ∷ out

unfoldable pub transfer_from : Map Str Entry → List Op → List Entry
unfolding append_found
transfer_from by_path [] = []
transfer_from by_path (op ∷ ops) =
    let rest = transfer_from by_path ops in
    if is_deleted op.action then rest else append_found (get op.path by_path) rest

unfoldable pub transfer_set : Manifest → List Op → List Entry
unfolding transfer_from
transfer_set source ops = transfer_from (index source) ops

unfoldable pub existing_from : Map Str Entry → List Op → List Entry
unfolding append_found
existing_from by_path [] = []
existing_from by_path (op ∷ ops) =
    let rest = existing_from by_path ops in
    if is_added op.action then rest else append_found (get op.path by_path) rest

unfoldable pub existing_entries : Manifest → List Op → List Entry
unfolding existing_from
existing_entries target ops = existing_from (index target) ops

pub data Direction : Type 0 where
  upload download : Direction
  other_direction : Str → Direction

unfoldable pub valid_direction : Direction → Bool
valid_direction upload = true
valid_direction download = true
valid_direction (other_direction s) = false

unfoldable pub plan_ops : Direction → Manifest → Manifest → List Op
plan_ops download client server = diff server client
plan_ops _ client server = diff client server

pub data CompareError : Type 0 where
  count_mismatch : ℕ → ℕ → CompareError
  path_mismatch : Str → CompareError

unfoldable pub compare_entries : Map Str Entry → Map Str Entry → Result CompareError (Unit {0})
compare_entries got [] = ok tt
compare_entries got ((p, e) ∷ want) =
    let rest = compare_entries got want in
    elim (get p got) [
      | none ↦ err (path_mismatch p)
      | some g ↦ if differs g e then err (path_mismatch p) else rest
    ]

unfoldable pub compare : Manifest → Manifest → Result CompareError (Unit {0})
unfolding compare_entries
compare want got =
    if length (index want) == length (index got)
    then compare_entries (index got) (index want)
    else err (count_mismatch (length (index want)) (length (index got)))
