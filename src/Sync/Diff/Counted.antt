-- ===== src/Sync/Diff/Counted.antt =====
-- The summary shown before an overwrite against the operations and the entries that they move.
use pocket_coder.Prelude.{
  ◌+◌, Bool, true, false, not, List, [], ◌∷◌, Option, none, some, ◌≡◌, Str, length, list_eq, nat_eq,
  All, arith,
}
use pocket_coder.Map.{Map, get}
use pocket_coder.Order.Keyed.{find_key, find_key_self, Ascending-DistinctBy}
use pocket_coder.Sync.Manifest.{Entry, Manifest, index}
use pocket_coder.Sync.Diff.{
  Action, Op, is_added, is_deleted, other, diff, Tally, tally, counts_from, counts, transfer_from,
  transfer_set, existing_from, existing_entries, append_found,
}
use pocket_coder.Sync.Diff.Pathwise.{op_path, planned, find-diff, diff-Ascending}

-- The operation is one that the trees call for at its path.
abbrev IsPlanned : Map Str Entry → Map Str Entry → Op → Type 0
IsPlanned src dst op = planned op.path (get op.path src) (get op.path dst) ≡ some op

abbrev is_other : Action → Bool
is_other (other a) = true
is_other _ = false

abbrev is_some : Option Entry → Bool
is_some none = false
is_some (some e) = true

-- A deletion alone has no source entry, an addition alone has no target entry.
abbrev Fits : Action → Option Entry → Option Entry → Type 0
Fits a s t =
    (is_some s ≡ not (is_deleted a)) × (is_some t ≡ not (is_added a)) × (is_other a ≡ false)

planned-Fits :
    (p : Str) (s t : Option Entry) (op : Op) → planned p s t ≡ some op → Fits op.action s t
planned-Fits p none none op h = ground arith
planned-Fits p none (some te) op h = ground arith
planned-Fits p (some se) none op h = ground arith
planned-Fits p (some se) (some te) op h = ground arith

module _ (src dst : Map Str Entry) where
  abbrev OpFits : Op → Type 0
  OpFits op = Fits op.action (get op.path src) (get op.path dst)

  counted :
      (ops : List Op) (t : Tally)
      → All OpFits ops
      → let u = counts_from t ops in
        (u.add + u.overwrite ≡ t.add + t.overwrite + length (transfer_from src ops))
        × (u.overwrite + u.delete ≡ t.overwrite + t.delete + length (existing_from dst ops))
        × (u.add + u.overwrite + u.delete ≡ t.add + t.overwrite + t.delete + length ops)
  unfolding counts_from tally transfer_from existing_from append_found
  counted [] t h = omega arith
  counted (op ∷ ops) t h = ground (arith, counted ops (tally op.action t) h.1, h.0)

All-Fits :
    (source target : Manifest) (ops : List Op)
    → All (λ op. find_key op_path op.path (diff source target) ≡ some op) ops
    → All (OpFits (index source) (index target)) ops
All-Fits source target [] h = tt
All-Fits source target (op ∷ ops) h = (
  planned-Fits op.path (get op.path (index source)) (get op.path (index target)) op
      (rw find-diff at h.0),
  All-Fits source target ops h.1,
)

-- For the operations of `Diff`, additions and overwrites count exactly the entries whose bytes
-- move, overwrites and deletions exactly the target's entries that are backed up, and the three
-- counts together every operation.
pub counts-diff :
    (source target : Manifest)
    → let ops = diff source target in
      ((counts ops).add + (counts ops).overwrite ≡ length (transfer_set source ops))
      × ((counts ops).overwrite + (counts ops).delete ≡ length (existing_entries target ops))
      × ((counts ops).add + (counts ops).overwrite + (counts ops).delete ≡ length ops)
unfolding counts transfer_set existing_entries
counts-diff source target =
    let ops = diff source target in
    omega (
      arith,
      counted (index source) (index target) ops (record { add = 0; overwrite = 0; delete = 0 })
          (All-Fits source target ops (
            find_key_self op_path ops
              (Ascending-DistinctBy op_path ops (diff-Ascending source target)))),
    )
