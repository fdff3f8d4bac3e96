-- ===== src/Sync/Diff/Applied.antt =====
-- `Diff` against what its operations mean: applied to the target they give the source. And
-- `Compare`, the check after an apply, accepts exactly the trees that agree at every path.
use pocket_coder.Prelude.{
  false, List, [], ◌∷◌, Option, none, some, ◌≡◌, refl, sym, Str, ◌==◌, list_eq, nat_eq,
  list_beq_iff, arith, Bool-cases, inl, inr, if◌then◌else◌,
}
use pocket_coder.Map.{Map, get, put, del}
use pocket_coder.Map.Laws.{get-put, get-del}
use pocket_coder.Order.Keyed.{DistinctBy, find_key, find_key-absent, Ascending-DistinctBy}
use pocket_coder.Sync.Manifest.{Entry, Manifest, index}
use pocket_coder.Sync.Diff.{Op, is_deleted, differs, diff}
use pocket_coder.Sync.Diff.Pathwise.{op_path, planned, find-diff, diff-Ascending}

-- The two trees hold the same thing at a path. Sizes are not compared.
abbrev pub Agrees : Option Entry → Option Entry → Type 0
Agrees none none = Unit
Agrees (some a) (some b) = (a.hash ≡ b.hash) × (a.mode ≡ b.mode) × (a.type ≡ b.type)
Agrees _ _ = ⊥

put_found : Str → Option Entry → Map Str Entry → Map Str Entry
put_found p none m = m
put_found p (some e) m = put p e m

-- What one operation does to a tree: a deletion removes the path, any other operation puts the
-- source's entry there.
unfoldable pub apply_op : Map Str Entry → Op → Map Str Entry → Map Str Entry
unfolding put_found
apply_op src op m =
    if is_deleted op.action then del op.path m else put_found op.path (get op.path src) m

unfoldable pub apply_ops : Map Str Entry → List Op → Map Str Entry → Map Str Entry
unfolding apply_op
apply_ops src [] m = m
apply_ops src (op ∷ ops) m = apply_ops src ops (apply_op src op m)

-- What stands at a path afterwards.
abbrev after : Option Op → Option Entry → Option Entry → Option Entry
after none s t = t
after (some op) s t = if is_deleted op.action then none else elim s [ none ↦ t | some e ↦ some e ]

get-put_found :
    (q p : Str) (s : Option Entry) (m : Map Str Entry)
    → get p (put_found q s m)
      ≡ (if q == p then elim s [ none ↦ get p m | some e ↦ some e ] else get p m)
unfolding put_found
get-put_found q p none m = ground arith
get-put_found q p (some e) m = get-put q p e m

get-apply_op :
    (src : Map Str Entry) (op : Op) (p : Str) (m : Map Str Entry)
    → get p (apply_op src op m)
      ≡ (if op.path == p then after (some op) (get p src) (get p m) else get p m)
unfolding apply_op
get-apply_op src op p m = ground (
  arith,
  get-del op.path p m,
  get-put_found op.path p (get op.path src) m,
  list_beq_iff op.path p,
)

get-apply_ops :
    (src : Map Str Entry) (ops : List Op) (p : Str) (m : Map Str Entry)
    → DistinctBy op_path ops
    → get p (apply_ops src ops m) ≡ after (find_key op_path p ops) (get p src) (get p m)
unfolding apply_ops find_key
get-apply_ops src [] p m d = refl
get-apply_ops src (op ∷ ops) p m d = elim (Bool-cases (op.path == p)) [
  | inl same ↦
      let e : op.path ≡ p = (list_beq_iff op.path p).0 same in
      let gone : find_key op_path p ops ≡ none =
        rw (← e) (find_key-absent op_path op.path ops d.0) in
      ground (arith, get-apply_ops src ops p (apply_op src op m) d.1, gone, get-apply_op src op p m)
  | inr apart ↦
      ground (arith, get-apply_ops src ops p (apply_op src op m) d.1, get-apply_op src op p m)
]

pub not-differs : (a b : Entry) → differs a b ≡ false → Agrees (some a) (some b)
not-differs a b h = ground (arith, list_beq_iff a.hash b.hash, list_beq_iff a.type b.type)

pub differs-not : (a b : Entry) → Agrees (some a) (some b) → differs a b ≡ false
differs-not a b h = ground (arith, list_beq_iff a.hash b.hash, list_beq_iff a.type b.type)

after-planned : (p : Str) (s t : Option Entry) → Agrees (after (planned p s t) s t) s
after-planned p none none = tt
after-planned p none (some te) = tt
after-planned p (some se) none = (refl, refl, refl)
after-planned p (some se) (some te) = elim (Bool-cases (differs se te)) [
  | inl yes' ↦ rw yes' (refl, refl, refl)
  | inr no' ↦ rw no' (
    (sym (not-differs se te no').0),
    (sym (not-differs se te no').1),
    (sym (not-differs se te no').2),
  )
]

-- Applying the operations of `Diff` to the target's tree gives, at every path, what the source
-- holds there: the same hash, mode and type, or nothing.
pub apply_ops-diff :
    (source target : Manifest) (p : Str)
    → Agrees
        (get p (apply_ops (index source) (diff source target) (index target)))
        (get p (index source))
apply_ops-diff source target p =
    rw
      (
        get-apply_ops (index source) (diff source target) p (index target)
            (Ascending-DistinctBy op_path (diff source target) (diff-Ascending source target)),
        find-diff,
      )
      (after-planned p (get p (index source)) (get p (index target)))
