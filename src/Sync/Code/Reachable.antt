-- ===== src/Sync/Code/Reachable.antt =====
-- Generating a code keeps the invariant, and what follows for every reachable store: a project has
-- one code at most that can still open a session.
use mathlib.Core.Path.{subst₂}
use pocket_coder.Prelude.{
  ℕ, ◌<◌, [], Option, none, some, ◌≡◌, ◌≢◌, refl, ap, subst, sym, ◌∙◌, Str, ◌==◌, nat_eq, list_eq,
  list_beq_iff, arith, Bool-cases, inl, inr,
}
use pocket_coder.Map.{Map, get, put, del, get_or}
use pocket_coder.Map.Laws.{get-put, get-del, get-put_self}
use pocket_coder.Sync.Code.{
  CodeStore, CodeEntry, Session, max_attempts, new_code_store, lookup, drop_old, is_busy,
  fresh_entry, register, find_session, finish, mark_used, generate, hash_code,
}
use pocket_coder.Sync.Code.Invariant.{
  Inv, if-Inv, EntryInv, IsOpenable, new_code_store-Inv, del-Inv, put-value, state-option-Inv,
  lookup_hash-Inv, find_session-Inv, finish-Inv, mark_used-Inv,
}

drop_old-Inv : (h : Str) (s : CodeStore) → Inv s → Inv (drop_old h s)
unfolding drop_old
drop_old-Inv h s v = elim (Bool-cases (h == [])) [
  | inl nothing ↦ rw nothing v
  | inr there ↦ rw there (
      state-option-Inv (get h s.entries) _ _ (del-Inv s h v) (λ old found.
        elim (Bool-cases (old.session_id == [])) [
          | inl never ↦ rw never (del-Inv s h v)
          | inr opened ↦
              rw opened (let w = del-Inv s h v in record { each = w.each; named = w.named })
        ]))
]

drop_old-entries : (h : Str) (s : CodeStore) → h ≢ [] → (drop_old h s).entries ≡ del h s.entries
unfolding drop_old
drop_old-entries h s ne = ground (arith, list_beq_iff h [])

drop_old-by_project : (h : Str) (s : CodeStore) → (drop_old h s).by_project ≡ s.by_project
unfolding drop_old
drop_old-by_project h s = ground arith

-- Registering a fresh code for a project of which no openable entry is left.
register-Inv :
    (h plain project : Str) (now : ℕ) (s : CodeStore)
    → h ≢ []
    → Inv s
    → ((k : Str) (e : CodeEntry) → get k s.entries ≡ some e → IsOpenable e → e.project ≢ project)
    → Inv (register h plain project now s)
unfolding register
register-Inv h plain project now s ne v free = record {
  each = λ k d found. elim (Bool-cases (h == k)) [
    | inl same ↦
        subst₂ (EntryInv (put project h s.by_project)) ((list_beq_iff h k).0 same)
          (put-value h k _ d s.entries same found)
          (record {
            own_hash = refl;
            in_budget = omega arith;
            current = λ o. get-put_self project h s.by_project;
          })
    | inr apart ↦
        let old : get k s.entries ≡ some d =
          ground (arith, get-put h k (fresh_entry h plain project now) s.entries) in
        let i = v.each k d old in
        record {
          own_hash = i.own_hash;
          in_budget = i.in_budget;
          current = λ o. ground (
            arith,
            get-put project d.project h s.by_project,
            i.current o,
            free k d old o,
            list_beq_iff project d.project,
          );
        }
  ];
  named = λ p k found. ground (arith, get-put project p h s.by_project, v.named p k);
}

-- An openable entry stands under its project's current hash.
openable-named :
    (s : CodeStore) (k : Str) (e : CodeEntry) (project : Str)
    → Inv s
    → get k s.entries ≡ some e
    → IsOpenable e
    → e.project ≡ project
    → (get_or project [] s.by_project ≡ k) × (k ≢ [])
openable-named s k e project v found o same =
    let here : get project s.by_project ≡ some k =
      subst (λ (p : Str). get p s.by_project ≡ some k) same ((v.each k e found).current o) in
    (ground (arith), v.named project k here)

-- What `drop_old` leaves of a project holds nothing that can open a session.
old-gone :
    (s : CodeStore) (k : Str) (e : CodeEntry) (project : Str)
    → Inv s
    → Inv (drop_old (get_or project [] s.by_project) s)
    → get k (drop_old (get_or project [] s.by_project) s).entries ≡ some e
    → IsOpenable e
    → e.project ≡ project
    → ⊥
old-gone s k e project v w found o same =
    let old = get_or project [] s.by_project in
    let here = openable-named (drop_old old s) k e project w found o same in
    let is_old : old ≡ k =
      ap (λ (m : Map Str Str). get_or project [] m) (sym (drop_old-by_project old s)) ∙ here.0 in
    let gone = drop_old-entries old s (λ z. here.1 (sym is_old ∙ z)) in
    ground (arith, gone, get-del old k s.entries, list_beq_iff old k)

module _ (sha256_hex : Str → Str) (to_upper : ℕ → ℕ)
    (digest : (code : Str) → sha256_hex code ≢ []) where
  hash_code-ne-nil : (code : Str) → hash_code sha256_hex to_upper code ≢ []
  unfolding hash_code
  hash_code-ne-nil code = digest _

  generate-Inv :
      (plain : Option Str) (now : ℕ) (project : Str) (s : CodeStore)
      → Inv s
      → Inv (generate sha256_hex to_upper plain now project s).1
  unfolding generate
  generate-Inv none now project s v = v
  generate-Inv (some plain) now project s v =
      let old = get_or project [] s.by_project in
      if-Inv (is_busy now old s) _ _ v (
        register-Inv (hash_code sha256_hex to_upper plain) plain project now (drop_old old s)
          (hash_code-ne-nil plain) (drop_old-Inv old s v)
          (λ k e found o same. old-gone s k e project v (drop_old-Inv old s v) found o same))

  -- The operations of the store, with any inputs; `handle` is a handler that changes sessions
  -- through the pointers that it holds.
  pub data Step (s : CodeStore) : CodeStore → Type 0 where
    generated :
        (plain : Option Str) (now : ℕ) (project : Str)
        → Step s (generate sha256_hex to_upper plain now project s).1
    looked_up :
        (now : ℕ) (nonce id : Option Str) (code project container dir branch commit : Str)
        → Step s
            (lookup sha256_hex to_upper now nonce id code project container dir branch commit s).1
    found : (now : ℕ) (id : Str) → Step s (find_session now id s).1
    finished : (id : Str) → Step s (finish id s)
    used : (sess : Session) → Step s (mark_used sess s)
    handle : (heap : Map ℕ Session) → Step s (record s { heap = heap })

  pub data Reach : CodeStore → Type 0 where
    start : Reach new_code_store
    next : {s t : CodeStore} → Reach s → Step s t → Reach t

  Step-Inv : {s t : CodeStore} → Step s t → Inv s → Inv t
  unfolding lookup
  Step-Inv (generated plain now project) v = generate-Inv plain now project _ v
  Step-Inv (looked_up now nonce id code project container dir branch commit) v =
      lookup_hash-Inv now nonce id (hash_code sha256_hex to_upper code) project container dir branch
        commit _ v
  Step-Inv (found now id) v = find_session-Inv now id _ v
  Step-Inv (finished id) v = finish-Inv id _ v
  Step-Inv (used sess) v = mark_used-Inv sess _ v
  Step-Inv (handle heap) v = record { each = v.each; named = v.named }

  pub Reach-Inv : {s : CodeStore} → Reach s → Inv s
  Reach-Inv start = new_code_store-Inv
  Reach-Inv (next r st) = Step-Inv st (Reach-Inv r)

  -- In every store that the operations reach, no entry has spent its ten attempts, and two entries
  -- that can still open a session for the same project are the same entry.
  pub single_code :
      {s : CodeStore}
      → Reach s
      → ((k : Str) (e : CodeEntry) → get k s.entries ≡ some e → e.attempts < max_attempts)
        × ((j k : Str) (d e : CodeEntry)
            → get j s.entries ≡ some d
            → get k s.entries ≡ some e
            → IsOpenable d
            → IsOpenable e
            → d.project ≡ e.project
            → j ≡ k)
  single_code {s} r =
      let v = Reach-Inv r in
      (
        λ k e hk. (v.each k e hk).in_budget,
        λ j k d e hj hk od oe same.
            let a = openable-named s j d e.project v hj od same in
            let b = openable-named s k e e.project v hk oe refl in sym a.0 ∙ b.0,
      )
