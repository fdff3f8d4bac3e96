-- ===== src/Threads/Approvals/Once.antt =====
-- Approvals are resolved one at a time and once.
use pocket_coder.Prelude.{
  ℕ, suc, true, false, List, [], ◌∷◌, count, none, some, ◌≡◌, refl, Str, ◌⊎◌, inl, inr, ◌==◌,
  nat_eq, list_eq, list_beq, arith, Bool-cases, ap, ◌∙◌,
}
use pocket_coder.Result.{ok, err}
use pocket_coder.Threads.Folders.{
  Approval, approval_status, approval_approved, approval_discarded, is_pending, Folder, Store,
  already_resolved, put_folder,
}
use pocket_coder.Threads.Approvals.{find_item, resolve_item, resolve_in, write_approvals}

resolved-is_pending :
    (a : Approval) (status : Str) (now : ℕ)
    → (status ≡ approval_approved) ⊎ (status ≡ approval_discarded)
    → is_pending (record a { status = status; resolved_at = now }) ≡ false
unfolding is_pending approval_status list_beq
resolved-is_pending a status now (inl e) = rw e refl
resolved-is_pending a status now (inr e) = rw e refl

find_item-resolve_item :
    (id status : Str) (now : ℕ) (a : Approval) (items : List Approval)
    → find_item id items ≡ some a
    → find_item id (resolve_item id status now items)
      ≡ some (record a { status = status; resolved_at = now })
unfolding find_item resolve_item
find_item-resolve_item id status now a [] h = cc
find_item-resolve_item id status now a (b ∷ items) h = elim (Bool-cases (b.id == id)) [
  | inl same ↦ rw same (let e : b ≡ a = ground (arith) in rw (← e) (rw same refl))
  | inr apart ↦ rw apart (rw apart (find_item-resolve_item id status now a items (rw apart at h)))
]

count-resolve_item :
    (id status : Str) (now : ℕ) (a : Approval) (items : List Approval)
    → (status ≡ approval_approved) ⊎ (status ≡ approval_discarded)
    → find_item id items ≡ some a
    → is_pending a ≡ true
    → suc (count is_pending (resolve_item id status now items)) ≡ count is_pending items
unfolding find_item resolve_item
count-resolve_item id status now a [] good h p = cc
count-resolve_item id status now a (b ∷ items) good h p = elim (Bool-cases (b.id == id)) [
  | inl same ↦
      let e : b ≡ a = ground (arith) in
      let q : is_pending b ≡ true = ap is_pending e ∙ p in
      rw (same, resolved-is_pending b status now good, q) refl
  | inr apart ↦ ground (arith, count-resolve_item id status now a items good)
]

-- Approving or discarding a pending approval leaves exactly one pending approval less in its
-- thread, and a second decision on it is refused, whatever that decision is.
pub resolve_in-once :
    (now later : ℕ) (dir id status again : Str) (f : Folder) (s t : Store) (a : Approval)
    → (status ≡ approval_approved) ⊎ (status ≡ approval_discarded)
    → find_item id f.approvals ≡ some a
    → is_pending a ≡ true
    → (g : Folder) × (resolve_in none now dir id status f s ≡ (ok tt, put_folder dir g s))
      × (suc (count is_pending g.approvals) ≡ count is_pending f.approvals)
      × (resolve_in none later dir id again g t ≡ (err already_resolved, t))
unfolding resolve_in write_approvals
resolve_in-once now later dir id status again f s t a good here pending = (
  record f { approvals = resolve_item id status now f.approvals },
  simp (resolve_in, here, pending),
  count-resolve_item id status now a f.approvals good here pending,
  simp (
    resolve_in,
    find_item-resolve_item id status now a f.approvals here,
    resolved-is_pending a status now good,
  ),
)
