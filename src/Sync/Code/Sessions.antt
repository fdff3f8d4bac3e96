-- ===== src/Sync/Code/Sessions.antt =====
-- One code, one session: what a hello opens, and that a finished session closes its code.
use pocket_coder.Prelude.{
  ℕ, ◌+◌, ◌≤◌, false, [], none, some, ◌≡◌, ◌≢◌, refl, ap, Str, nat_eq, list_eq, list_beq_iff, arith,
}
use pocket_coder.Map.{get, get_or}
use pocket_coder.Map.Laws.{get-put_self, get-del_self}
use pocket_coder.Result.{ok, err}
use pocket_coder.Sync.Errors.{code_used}
use pocket_coder.Sync.Code.{
  CodeStore, CodeEntry, Session, code_ttl, lookup, lookup_hash, lookup_entry, live_session,
  draw_session, open_session, drop_old, register, fresh_entry, finish, forget_plain, free_project,
  session_at, generate, hash_code, normalize_code,
}
use pocket_coder.Sync.Code.Budget.{Hello, hello}

-- A hello that may open a session: for the right project, before the code expires, with both draws.
pub record Admissible (e : CodeEntry) (g : Hello) (nonce id : Str) : Type 0 where
  pub in_time : g.now ≤ e.expires
  pub right_project : e.project ≡ g.project
  pub drew_nonce : g.nonce ≡ some nonce
  pub drew_id : g.id ≡ some id

module _ (hash : Str) where
  hello-draws :
      (e : CodeEntry) (g : Hello) (nonce id : Str) (s : CodeStore)
      → get hash s.entries ≡ some e
      → e.unknown ≡ false
      → e.used ≡ false
      → e.plain ≢ []
      → e.session_id ≡ []
      → Admissible e g nonce id
      → hello hash g s
        ≡ open_session e hash nonce id g.project g.container g.dir g.branch g.commit s
  unfolding lookup_hash lookup_entry live_session draw_session
  hello-draws e g nonce id s here known unused plain unopened a = ground (
    arith,
    list_beq_iff e.project g.project,
    list_beq_iff e.plain [],
    list_beq_iff e.session_id [],
  )

  hello-opens :
      (e : CodeEntry) (g : Hello) (nonce id : Str) (s : CodeStore)
      → get hash s.entries ≡ some e
      → e.unknown ≡ false
      → e.used ≡ false
      → e.plain ≢ []
      → e.session_id ≡ []
      → Admissible e g nonce id
      → let r = hello hash g s in
        (r.0 ≡ ok s.next)
        × (get id r.1.sessions ≡ some s.next)
        × (get hash r.1.entries ≡ some (record e { session_id = id }))
        × ((sess : Session) × (get s.next r.1.heap ≡ some sess)
            × (sess.project ≡ g.project)
            × (sess.nonce ≡ nonce)
            × (sess.code ≡ e.plain)
            × (sess.expires_at ≡ e.expires)
            × (sess.finished ≡ false))
  unfolding open_session
  hello-opens e g nonce id s here known unused plain unopened a =
      rw (hello-draws e g nonce id s here known unused plain unopened a) (
        refl,
        get-put_self id s.next s.sessions,
        get-put_self hash (record e { session_id = id }) s.entries,
        (_, get-put_self s.next _ s.heap, refl, refl, refl, refl, refl),
      )

  -- While a code's session is live and not finished, every further hello with the code, in time and
  -- for the right project, gets that session again and changes nothing.
  pub hello-again :
      (e : CodeEntry) (g : Hello) (a : ℕ) (sess : Session) (s : CodeStore)
      → get hash s.entries ≡ some e
      → e.unknown ≡ false
      → g.now ≤ e.expires
      → e.project ≡ g.project
      → e.session_id ≢ []
      → get e.session_id s.sessions ≡ some a
      → get a s.heap ≡ some sess
      → sess.finished ≡ false
      → hello hash g s ≡ (ok a, s)
  unfolding lookup_hash lookup_entry live_session
  hello-again e g a sess s here known in_time right opened at live unfinished =
      ground (arith, list_beq_iff e.project g.project, list_beq_iff e.session_id [])

  finish-closes :
      (id : Str) (sess : Session) (e : CodeEntry) (s : CodeStore)
      → session_at s id ≡ some sess
      → sess.code_hash ≡ hash
      → get hash s.entries ≡ some e
      → (get hash (finish id s).entries ≡ some (record e { plain = [] }))
        × (get id (finish id s).sessions ≡ none)
  unfolding finish forget_plain free_project
  finish-closes id sess e s there mine here = ground (
    arith,
    mine,
    get-put_self hash (record e { plain = [] }) s.entries,
    get-del_self id s.sessions,
  )

  -- An entry with no plaintext and no live session opens nothing.
  hello-closed :
      (e : CodeEntry) (g : Hello) (s : CodeStore)
      → get hash s.entries ≡ some e
      → e.unknown ≡ false
      → g.now ≤ e.expires
      → e.project ≡ g.project
      → e.plain ≡ []
      → get e.session_id s.sessions ≡ none
      → hello hash g s ≡ (err code_used, s)
  unfolding lookup_hash lookup_entry live_session
  hello-closed e g s here known in_time right empty gone =
      ground (arith, list_beq_iff e.project g.project, list_beq_iff e.plain [])

  -- Once the session that a code opened is finished, no hello opens another with that code: in time
  -- and for the right project the answer is that the code is used, and the store stays as it is.
  pub finish-hello :
      (id : Str) (sess : Session) (e : CodeEntry) (g : Hello) (s : CodeStore)
      → session_at s id ≡ some sess
      → sess.code_hash ≡ hash
      → get hash s.entries ≡ some e
      → e.unknown ≡ false
      → e.session_id ≡ id
      → g.now ≤ e.expires
      → e.project ≡ g.project
      → hello hash g (finish id s) ≡ (err code_used, finish id s)
  finish-hello id sess e g s there mine here known own in_time right =
      let c = finish-closes id sess e s there mine here in
      hello-closed (record e { plain = [] }) g (finish id s) c.0 known in_time right refl
        (rw own c.1)

module _ (sha256_hex : Str → Str) (to_upper : ℕ → ℕ) where
  generated :
      (plain : Str) (now : ℕ) (project : Str) (x : Str × ℕ) (s t : CodeStore)
      → generate sha256_hex to_upper (some plain) now project s ≡ (ok x, t)
      → let h = hash_code sha256_hex to_upper plain in
        (x ≡ (plain, now + code_ttl)) × (get h t.entries ≡ some (fresh_entry h plain project now))
  unfolding generate register
  generated plain now project x s t h =
      let k = hash_code sha256_hex to_upper plain in
      let old = drop_old (get_or project [] s.by_project) s in
      ground (arith, get-put_self k (fresh_entry k plain project now) old.entries)

  -- A code that `Generate` hands out opens a session: a hello that types it in any spelling with the
  -- same normal form, for the project and within ten minutes, gets a new session, bound to the
  -- project and to the server's own spelling of the code.
  pub generate-lookup :
      (plain typed nonce id : Str) (now : ℕ) (x : Str × ℕ) (g : Hello) (s t : CodeStore)
      → generate sha256_hex to_upper (some plain) now g.project s ≡ (ok x, t)
      → plain ≢ []
      → normalize_code to_upper typed ≡ normalize_code to_upper plain
      → g.now ≤ now + code_ttl
      → g.nonce ≡ some nonce
      → g.id ≡ some id
      → let r =
          lookup sha256_hex to_upper g.now g.nonce g.id typed g.project g.container g.dir g.branch
            g.commit t in
        (r.0 ≡ ok t.next)
        × ((sess : Session) × (get t.next r.1.heap ≡ some sess)
            × (sess.project ≡ g.project)
            × (sess.code ≡ plain)
            × (sess.expires_at ≡ now + code_ttl)
            × (sess.finished ≡ false))
  unfolding lookup fresh_entry hash_code
  generate-lookup plain typed nonce id now x g s t made ne same in_time dn di =
      let k = hash_code sha256_hex to_upper plain in
      let e = fresh_entry k plain g.project now in
      let spelled : hash_code sha256_hex to_upper typed ≡ k = ap sha256_hex same in
      let r =
        hello-opens k e g nonce id t (generated plain now g.project x s t made).1 refl refl ne refl
          (record { in_time = in_time; right_project = refl; drew_nonce = dn; drew_id = di }) in
      rw spelled (r.0, (r.3.0, r.3.1, r.3.2, r.3.4, r.3.5, r.3.6))
