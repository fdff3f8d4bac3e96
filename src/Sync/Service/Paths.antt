-- ===== src/Sync/Service/Paths.antt =====
-- The paths that an upload writes, removes and backs up are those of its operations.
use pocket_coder.Prelude.{
  if-branches, true, false, List, [], ◌∷◌, none, ◌≡◌, refl, ap, subst, Str, any, All, All-imp, inl,
  inr, ◌==◌, ==_refl, nat_eq, list_eq, list_beq_iff, arith, Bool-cases, Option-cases,
  option-branches,
}
use pocket_coder.Map.{Map, get, del, has}
use pocket_coder.Result.{Result, ok, err, ◌>>=◌}
use pocket_coder.Sync.Manifest.{Entry}
use pocket_coder.Sync.Diff.{Op, is_added, transfer_from, append_found}
use pocket_coder.Sync.Errors.{SyncError}
use pocket_coder.Sync.Archive.{can_read, File, Tree}
use pocket_coder.Sync.Backup.{BackupEntry, backup_entry, backup_entries}
use pocket_coder.Sync.Backup.Edits.{IsPlanned, planned-action}
use pocket_coder.Sync.Service.Backed.{IsKeyed}
use pocket_coder.Sync.Service.{payload, deleted_paths, added_paths, staged_entries}

-- The files of a payload have the paths of its entries.
abbrev pub Pays : List Entry → Result SyncError Tree → Type 0
Pays es (err x) = Unit
Pays es (ok fs) = (p : Str) → has p fs ≡ any (λ e. e.path == p) es

pub payload-Pays : (staged : Tree) (es : List Entry) → Pays es (payload staged es)
unfolding payload get
payload-Pays staged [] = λ p. refl
payload-Pays staged (e ∷ es) =
    option-branches (Pays (e ∷ es)) (get e.path staged) _ _ (λ gone. tt)
      (λ f there.
        if-branches (Pays (e ∷ es)) (can_read e.type f) _ _
          (λ good. more f (payload staged es) (payload-Pays staged es)) (λ bad. tt))
  where
    more :
        (f : File) (r : Result SyncError Tree)
        → Pays es r
        → Pays (e ∷ es) (
            r >>= λ gs.
            ok ((e.path, record { type = e.type; mode = e.mode; content = f.content }) ∷ gs))
    more f (err x) h = tt
    more f (ok gs) h = λ p. ground (arith, h p)

-- A deleted or added path is the path of an operation.
pub any-deleted_paths :
    (p : Str) (ops : List Op)
    → any (λ q. q == p) (deleted_paths ops) ≡ true
    → any (λ op. op.path == p) ops ≡ true
unfolding deleted_paths
any-deleted_paths p [] h = h
any-deleted_paths p (op ∷ ops) h = ground (arith, any-deleted_paths p ops)

pub any-added_paths :
    (p : Str) (ops : List Op)
    → any (λ q. q == p) (added_paths ops) ≡ true
    → any (λ op. op.path == p) ops ≡ true
unfolding added_paths
any-added_paths p [] h = h
any-added_paths p (op ∷ ops) h = ground (arith, any-added_paths p ops)

pub any-transfer_from :
    (p : Str) (src : Map Str Entry) (ops : List Op)
    → IsKeyed src
    → any (λ e. e.path == p) (transfer_from src ops) ≡ true
    → any (λ op. op.path == p) ops ≡ true
unfolding transfer_from append_found
any-transfer_from p src [] keyed h = h
any-transfer_from p src (op ∷ ops) keyed h = elim (Option-cases (get op.path src)) [
  | inl gone ↦ ground (arith, any-transfer_from p src ops keyed)
  | inr (e, there) ↦ ground (arith, any-transfer_from p src ops keyed, keyed op.path e there)
]

-- An added path was not in the tree.
pub added-gone :
    (p : Str) (source target : Map Str Entry) (tree : Tree) (ops : List Op)
    → ((q : Str) → get q target ≡ none → get q tree ≡ none)
    → All (IsPlanned source target) ops
    → any (λ q. q == p) (added_paths ops) ≡ true
    → get p tree ≡ none
unfolding added_paths
added-gone p source target tree [] gone h there = cc
added-gone p source target tree (op ∷ ops) gone h there = elim (Bool-cases (is_added op.action)) [
  | inr old ↦ added-gone p source target tree ops gone h.1 (rw old at there)
  | inl new ↦ elim (Bool-cases (op.path == p)) [
    | inr apart ↦ added-gone p source target tree ops gone h.1 (ground (arith, there))
    | inl same ↦
        let e : op.path ≡ p = (list_beq_iff op.path p).0 same in
        elim (planned-action op (get op.path source) (get op.path target) h.0) [
          | inl due ↦ rw (← e) (gone op.path due.0)
          | inr (d, due, act) ↦ absurd (elim act [
            | inl over ↦ cc (ap is_added over, new)
            | inr del ↦ cc (ap is_added del, new)
          ])
        ]
  ]
]

-- The path of an operation is added, or has what every old path of the backup has.
pub op-old :
    (P : Str → Type 0) (p : Str) (source target : Map Str Entry) (ops : List Op)
    → All (IsPlanned source target) ops
    → All (λ be. is_added be.action ≡ false → P be.path) (backup_entries target ops)
    → any (λ op. op.path == p) ops ≡ true
    → any (λ q. q == p) (added_paths ops) ≡ false
    → P p
unfolding backup_entries backup_entry added_paths
op-old P p source target [] due h there out = cc
op-old P p source target (op ∷ ops) due h there out = elim (Bool-cases (is_added op.action)) [
  | inl new ↦
      op-old P p source target ops due.1 ((rw new at h).1) (ground (arith, there, out))
        (ground (arith, out))
  | inr old ↦ elim (planned-action op (get op.path source) (get op.path target) due.0) [
    | inl z ↦ absurd (cc (ap is_added z.1, old))
    | inr (e, here, act) ↦
        let k = rw (old, here) at h in
        elim (Bool-cases (op.path == p)) [
          | inl same ↦ subst P ((list_beq_iff op.path p).0 same) (k.0 old)
          | inr apart ↦
              op-old P p source target ops due.1 k.1 (ground (arith, there)) (ground (arith, out))
        ]
  ]
]

-- The entries that are uploaded again have the paths of the old entries of the backup.
pub staged_entries-old :
    (bes : List BackupEntry)
    → All
        (λ be.
          is_added be.action ≡ false → any (λ e. e.path == be.path) (staged_entries bes) ≡ true)
        bes
unfolding staged_entries
staged_entries-old [] = tt
staged_entries-old (be ∷ bes) = (
  (λ old. rw old (ground (arith, ==_refl be.path))),
  All-imp bes (λ x there old. wider x.path (there old)) (staged_entries-old bes),
)
  where
    wider :
        (p : Str)
        → any (λ e. e.path == p) (staged_entries bes) ≡ true
        → any (λ e. e.path == p) (staged_entries (be ∷ bes)) ≡ true
    wider p h = ground arith

pub any-staged_entries :
    (p : Str) (bes : List BackupEntry)
    → any (λ e. e.path == p) (staged_entries bes) ≡ true
    → any (λ be. be.path == p) bes ≡ true
unfolding staged_entries
any-staged_entries p [] h = h
any-staged_entries p (be ∷ bes) h = ground (arith, any-staged_entries p bes)
