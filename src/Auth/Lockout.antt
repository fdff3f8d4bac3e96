-- ===== src/Auth/Lockout.antt =====
-- A lockout ends when its window has passed.
use pocket_coder.Prelude.{
  ℕ, ◌+◌, ◌≤◌, true, List, [], ◌∷◌, ◌≡◌, refl, ◌∙◌, Str, All, All-append, ◌==◌, nat_eq, list_eq,
  arith, if-branches,
}
use pocket_coder.Result.{Result}
use pocket_coder.Auth.{
  FailRecord, Service, AuthError, Library, rate_window, in_window, recent_fails, count_source,
  limited, other_sources, clear_source, record_fail, is_account, issue_token, login,
}
use pocket_coder.Auth.Guesses.{Attempt, try, tries}

abbrev IsBefore : ℕ → FailRecord → Type 0
IsBefore t f = f.at ≤ t

All-recent_fails :
    (t now : ℕ) (fs : List FailRecord)
    → All (IsBefore t) fs
    → All (IsBefore t) (recent_fails now fs)
unfolding recent_fails
All-recent_fails t now [] h = tt
All-recent_fails t now (f ∷ fs) h =
    if-branches (All (IsBefore t)) (in_window now f) _ _
      (λ kept. (h.0, All-recent_fails t now fs h.1)) (λ gone. All-recent_fails t now fs h.1)

All-other_sources :
    (t : ℕ) (p : Str) (fs : List FailRecord)
    → All (IsBefore t) fs
    → All (IsBefore t) (other_sources p fs)
unfolding other_sources
All-other_sources t p [] h = tt
All-other_sources t p (f ∷ fs) h =
    if-branches (All (IsBefore t)) (f.source == p) _ _ (λ own. All-other_sources t p fs h.1)
      (λ other. (h.0, All-other_sources t p fs h.1))

recent_fails_none :
    (t now : ℕ) (fs : List FailRecord)
    → t + rate_window ≤ now
    → All (IsBefore t) fs
    → recent_fails now fs ≡ []
unfolding recent_fails in_window
recent_fails_none t now [] late h = refl
recent_fails_none t now (f ∷ fs) late h =
    let old = h.0 in ground (arith, recent_fails_none t now fs late h.1)

module _ (lib : Library) where
  -- The account stays, and every failure on record is an attempt's.
  abbrev IsSince : ℕ → Service → Service → Type 0
  IsSince t s r =
      (r.email ≡ s.email)
      × (r.auth_version ≡ s.auth_version)
      × (r.secret ≡ s.secret)
      × ((email password : Str) → is_account lib email password r ≡ is_account lib email password s)
      × All (IsBefore t) r.fails

  try-IsSince :
      (t : ℕ) (a : Attempt) (s : Service)
      → a.at ≤ t
      → All (IsBefore t) s.fails
      → IsSince t s (try lib a s).1
  unfolding try login limited clear_source record_fail is_account
  try-IsSince t a s h old =
      let kept = All-recent_fails t a.at s.fails old in
      if-branches (λ (r : Result AuthError Str × Service). IsSince t s r.1)
        (limited a.source a.at s).0 _ _ (λ full. (refl, refl, refl, (λ e p. refl), kept))
        (λ free.
          if-branches (λ (r : Result AuthError Str × Service). IsSince t s r.1)
            (is_account lib a.email a.password s) _ _
            (λ good. (
              refl,
              refl,
              refl,
              (λ e p. refl),
              All-other_sources t a.source (recent_fails a.at s.fails) kept,
            ))
            (λ bad. (
              refl,
              refl,
              refl,
              (λ e p. refl),
              All-append (IsBefore t) (recent_fails a.at s.fails) _ kept (h, tt),
            )))

  tries-IsSince :
      (t : ℕ) (p : Str) (attempts : List Attempt) (s : Service)
      → All (λ a. a.at ≤ t) attempts
      → All (IsBefore t) s.fails
      → IsSince t s (tries lib p attempts s).1
  unfolding tries
  tries-IsSince t p [] s h old = (refl, refl, refl, (λ e q. refl), old)
  tries-IsSince t p (a ∷ later) s h old =
      let (e, v, z, k, kept) = try-IsSince t a s h.0 old in
      let (e', v', z', k', kept') = tries-IsSince t p later (try lib a s).1 h.1 kept in
      (e' ∙ e, v' ∙ v, z' ∙ z, (λ m q. k' m q ∙ k m q), kept')

  free_login :
      (email password source : Str) (t now : ℕ) (s : Service)
      → All (IsBefore t) s.fails
      → t + rate_window ≤ now
      → is_account lib email password s ≡ true
      → (login lib email password source now s).0
        ≡ issue_token lib s.secret s.email s.auth_version now
  unfolding login limited count_source
  free_login email password source t now s old late good =
      rw (recent_fails_none t now s.fails late old, good) refl

  -- Whatever was tried on a fresh service, by whomever and however often, fifteen minutes after the
  -- last attempt the right email and password are served again from every source: the login ends in
  -- the token of the account.
  pub tries-login :
      (p email password source : Str) (t now : ℕ) (attempts : List Attempt) (s : Service)
      → s.fails ≡ []
      → All (λ a. a.at ≤ t) attempts
      → t + rate_window ≤ now
      → is_account lib email password s ≡ true
      → (login lib email password source now (tries lib p attempts s).1).0
        ≡ issue_token lib s.secret s.email s.auth_version now
  tries-login p email password source t now attempts s fresh h late good =
      let (e, v, z, k, old) = tries-IsSince t p attempts s h (rw fresh tt) in
      free_login email password source t now (tries lib p attempts s).1 old late
        (k email password ∙ good)
      ∙ (rw (e, v, z) refl)
