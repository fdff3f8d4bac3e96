-- ===== src/Sync/Code/Invariant.antt =====
-- What holds of the code store between two operations, and that every operation keeps it.
use mathlib.Core.Path.{subst₂}
use pocket_coder.Prelude.{
  ℕ, suc, ◌<◌, Bool, true, false, ◌||◌, not, [], Option, none, some, ◌≡◌, ◌≢◌, refl, subst, sym,
  Str, ltb, leb, ◌==◌, nat_eq, list_eq, list_beq_iff, if◌then◌else◌, arith, Bool-cases,
  Option-cases, inl, inr,
}
use pocket_coder.Map.{Map, get, put, del, get_or}
use pocket_coder.Map.Laws.{get-put, get-del, get-put_self}
use pocket_coder.Sync.Errors.{SyncError}
use pocket_coder.Sync.Code.{
  CodeStore, CodeEntry, Session, max_attempts, new_code_store, fail_attempt, lookup_entry,
  lookup_hash, unknown_entry, live_session, draw_session, open_session, find_session, forget_plain,
  free_project, finish, mark_used, session_at,
}

-- An entry with its plaintext can still open a session.
abbrev pub IsOpenable : CodeEntry → Type 0
IsOpenable e = (e.unknown ≡ false) × (e.plain ≢ [])

-- What holds of each entry: it stands under its own hash, has attempts left, and while it can open
-- a session it is its project's current code.
pub record EntryInv (by_project : Map Str Str) (h : Str) (e : CodeEntry) : Type 0 where
  pub own_hash : e.hash ≡ h
  pub in_budget : e.attempts < max_attempts
  pub current : IsOpenable e → get e.project by_project ≡ some h

pub record Inv (s : CodeStore) : Type 0 where
  pub each : (h : Str) (e : CodeEntry) → get h s.entries ≡ some e → EntryInv s.by_project h e
  pub named : (p : Str) (h : Str) → get p s.by_project ≡ some h → h ≢ []

pub new_code_store-Inv : Inv new_code_store
unfolding new_code_store get
new_code_store-Inv = record { each = λ h e found. cc; named = λ p h found. cc }

pub put-value :
    (h k : Str) (e d : CodeEntry) (m : Map Str CodeEntry)
    → (h == k) ≡ true
    → get k (put h e m) ≡ some d
    → e ≡ d
put-value h k e d m same found = ground (arith, get-put h k e m)

-- Writing one entry that satisfies the invariant keeps it.
pub put-Inv :
    (s : CodeStore) (h : Str) (e : CodeEntry)
    → Inv s
    → EntryInv s.by_project h e
    → Inv (record s { entries = put h e s.entries })
put-Inv s h e v here = record {
  each = λ k d found. elim (Bool-cases (h == k)) [
    | inl same ↦
        subst₂ (EntryInv s.by_project) ((list_beq_iff h k).0 same)
          (put-value h k e d s.entries same found) here
    | inr apart ↦ v.each k d (ground (arith, get-put h k e s.entries))
  ];
  named = v.named;
}

pub del-Inv : (s : CodeStore) (h : Str) → Inv s → Inv (record s { entries = del h s.entries })
del-Inv s h v = record {
  each = λ k d found. v.each k d (ground (arith, get-del h k s.entries));
  named = v.named;
}

pub if-Inv :
    {A : Type 0} (b : Bool) (x y : A × CodeStore) → Inv x.1 → Inv y.1 → Inv (if b then x else y).1
if-Inv true x y v w = v
if-Inv false x y v w = w

pub option-Inv :
    {A B : Type 0} (o : Option B) (x : A × CodeStore) (f : B → A × CodeStore)
    → Inv x.1
    → ((b : B) → o ≡ some b → Inv (f b).1)
    → Inv (elim o as (λ _. A × CodeStore) [ none ↦ x | some b ↦ f b ]).1
option-Inv none x f v w = v
option-Inv (some b) x f v w = w b refl

fail_attempt-Inv :
    (e : CodeEntry) (h : Str) (error : SyncError) (s : CodeStore)
    → Inv s
    → EntryInv s.by_project h e
    → Inv (fail_attempt e h error s).1
unfolding fail_attempt
fail_attempt-Inv e h error s v i = elim (Bool-cases (leb max_attempts (suc e.attempts))) [
  | inl spent ↦ rw spent (del-Inv s h v)
  | inr left ↦ rw left (
      put-Inv s h (record e { attempts = suc e.attempts }) v
        (record { own_hash = i.own_hash; in_budget = ground arith; current = i.current }))
]

draw_session-Inv :
    (e : CodeEntry) (h : Str) (nonce id : Option Str) (project container dir branch commit : Str)
    (s : CodeStore)
    → Inv s
    → EntryInv s.by_project h e
    → Inv (draw_session e h nonce id project container dir branch commit s).1
unfolding draw_session open_session
draw_session-Inv e h none id project container dir branch commit s v i = v
draw_session-Inv e h (some n) none project container dir branch commit s v i = v
draw_session-Inv e h (some n) (some id) project container dir branch commit s v i =
    let w =
      put-Inv s h (record e { session_id = id }) v
        (record { own_hash = i.own_hash; in_budget = i.in_budget; current = i.current }) in
    record { each = w.each; named = w.named }

lookup_entry-Inv :
    (now : ℕ) (nonce id : Option Str) (h project container dir branch commit : Str) (e : CodeEntry)
    (s : CodeStore)
    → Inv s
    → EntryInv s.by_project h e
    → Inv (lookup_entry now nonce id h project container dir branch commit e s).1
unfolding lookup_entry
lookup_entry-Inv now nonce id h project container dir branch commit e s v i =
    if-Inv e.unknown _ _ (fail_attempt-Inv e h _ s v i) (
      if-Inv (ltb e.expires now) _ _ (fail_attempt-Inv e h _ s v i) (
        if-Inv (not (e.project == project)) _ _ (fail_attempt-Inv e h _ s v i) (
          option-Inv (live_session s e) _ _
            (if-Inv (e.used || e.plain == []) _ _ v
              (draw_session-Inv e h nonce id project container dir branch commit s v i))
            (λ a found. v))))

unknown_entry-EntryInv : (m : Map Str Str) (h : Str) → EntryInv m h (unknown_entry h)
unfolding unknown_entry
unknown_entry-EntryInv m h = record {
  own_hash = refl;
  in_budget = omega arith;
  current = λ o. cc (o.0);
}

pub lookup_hash-Inv :
    (now : ℕ) (nonce id : Option Str) (h project container dir branch commit : Str) (s : CodeStore)
    → Inv s
    → Inv (lookup_hash now nonce id h project container dir branch commit s).1
unfolding lookup_hash
lookup_hash-Inv now nonce id h project container dir branch commit s v =
    option-Inv (get h s.entries) _ _
      (lookup_entry-Inv now nonce id h project container dir branch commit (unknown_entry h) _
        (put-Inv s h (unknown_entry h) v (unknown_entry-EntryInv s.by_project h))
        (unknown_entry-EntryInv s.by_project h))
      (λ e found.
        lookup_entry-Inv now nonce id h project container dir branch commit e s v
          (v.each h e found))

pub find_session-Inv : (now : ℕ) (id : Str) (s : CodeStore) → Inv s → Inv (find_session now id s).1
unfolding find_session
find_session-Inv now id s v = option-Inv (get id s.sessions) _ _ v (λ a found.
    option-Inv (get a s.heap) _ _ v (λ sess there.
      if-Inv (ltb sess.expires_at now) _ _ (record { each = v.each; named = v.named }) v))

pub state-option-Inv :
    {B : Type 0} (o : Option B) (x : CodeStore) (f : B → CodeStore)
    → Inv x
    → ((b : B) → o ≡ some b → Inv (f b))
    → Inv (elim o as (λ _. CodeStore) [ none ↦ x | some b ↦ f b ])
state-option-Inv none x f v w = v
state-option-Inv (some b) x f v w = w b refl

pub mark_used-Inv : (sess : Session) (s : CodeStore) → Inv s → Inv (mark_used sess s)
unfolding mark_used
mark_used-Inv sess s v = state-option-Inv (get sess.code_hash s.entries) _ _ v (λ e found.
    let i = v.each sess.code_hash e found in
    put-Inv s sess.code_hash (record e { used = true }) v
      (record { own_hash = i.own_hash; in_budget = i.in_budget; current = i.current }))

forget_plain-Inv : (h : Str) (s : CodeStore) → Inv s → Inv (forget_plain h s)
unfolding forget_plain
forget_plain-Inv h s v = state-option-Inv (get h s.entries) _ _ v (λ e found.
    let i = v.each h e found in
    put-Inv s h (record e { plain = [] }) v
      (record { own_hash = i.own_hash; in_budget = i.in_budget; current = λ o. absurd (o.1 refl) }))

-- The plaintext of a forgotten code is gone.
forget_plain-closed :
    (h : Str) (s : CodeStore) (e : CodeEntry)
    → get h (forget_plain h s).entries ≡ some e
    → e.plain ≡ []
unfolding forget_plain
forget_plain-closed h s e found = elim (Option-cases (get h s.entries)) [
  | inl missing ↦ ground (arith)
  | inr (d, there) ↦ ground (arith, get-put_self h (record d { plain = [] }) s.entries)
]

forget_plain-by_project : (h : Str) (s : CodeStore) → (forget_plain h s).by_project ≡ s.by_project
unfolding forget_plain
forget_plain-by_project h s = ground arith

mine-hash :
    (m : Map Str Str) (p q h c : Str)
    → (p == q) ≡ true
    → (get_or p [] m == c) ≡ true
    → get q m ≡ some h
    → c ≡ h
mine-hash m p q h c same mine found =
    let e : p ≡ q = (list_beq_iff p q).0 same in
    let here : get p m ≡ some h = rw e found in ground (arith, list_beq_iff h c)

free_project-Inv :
    (sess : Session) (s : CodeStore)
    → Inv s
    → ((e : CodeEntry) → get sess.code_hash s.entries ≡ some e → e.plain ≡ [])
    → Inv (free_project sess s)
unfolding free_project
free_project-Inv sess s v closed =
    elim (Bool-cases (get_or sess.project [] s.by_project == sess.code_hash)) [
      | inr other ↦ rw other v
      | inl mine ↦ rw mine (record {
        each = λ h e found.
            let i = v.each h e found in
            record {
              own_hash = i.own_hash;
              in_budget = i.in_budget;
              current = λ o. elim (Bool-cases (sess.project == e.project)) [
                | inr apart ↦
                    ground (arith, get-del sess.project e.project s.by_project, i.current o)
                | inl same ↦ absurd (
                    o.1 (
                      closed e (
                        subst (λ (k : Str). get k s.entries ≡ some e)
                          (sym (
                            mine-hash s.by_project sess.project e.project h sess.code_hash same mine
                              (i.current o)))
                          found)))
              ];
            };
        named = λ p h found. v.named p h (ground (arith, get-del sess.project p s.by_project));
      })
    ]

pub finish-Inv : (id : Str) (s : CodeStore) → Inv s → Inv (finish id s)
unfolding finish
finish-Inv id s v = state-option-Inv (session_at s id) _ _ v (λ sess found.
    let w =
      free_project-Inv sess (forget_plain sess.code_hash s) (forget_plain-Inv sess.code_hash s v)
        (forget_plain-closed sess.code_hash s) in
    record { each = w.each; named = w.named })
