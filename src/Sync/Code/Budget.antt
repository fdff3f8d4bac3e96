-- ===== src/Sync/Code/Budget.antt =====
-- The guess budget of a code: a hello that fails on the code itself spends one attempt, and the
-- tenth kills the code.
use pocket_coder.Prelude.{
  ℕ, true, ◌||◌, not, ltb, List, [], ◌∷◌, Option, ◌≡◌, Str, ◌==◌, nat_eq, list_eq,
}
use pocket_coder.Result.{Result}
use pocket_coder.Sync.Errors.{SyncError}
use pocket_coder.Sync.Code.{CodeStore, CodeEntry, lookup_hash}

-- A hello for `project` at a time, with what it draws and where it would bind a session.
pub record Hello : Type 0 where
  pub now : ℕ
  pub nonce : Option Str
  pub id : Option Str
  pub project : Str
  pub container : Str
  pub dir : Str
  pub branch : Str
  pub commit : Str

abbrev pub hello : Str → Hello → CodeStore → Result SyncError ℕ × CodeStore
hello hash g s = lookup_hash g.now g.nonce g.id hash g.project g.container g.dir g.branch g.commit s

-- The store after a run of hellos with one code.
unfoldable pub hellos : Str → List Hello → CodeStore → CodeStore
hellos hash [] s = s
hellos hash (g ∷ gs) s = hellos hash gs (hello hash g s).1

-- The hello meets a code that was never generated, that has expired, or that is another project's.
abbrev pub Misses : CodeEntry → Hello → Type 0
Misses e g = (e.unknown || (ltb e.expires g.now || not (e.project == g.project))) ≡ true
