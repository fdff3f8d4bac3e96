-- ===== src/Auth/Guesses.antt =====
-- How many wrong passwords a source can try.
use pocket_coder.Prelude.{
  ℕ, suc, ◌+◌, ◌≤◌, ◌<◌, Bool, true, false, ◌&&◌, List, [], ◌∷◌, ◌++◌, ◌≡◌, refl, ◌∙◌, Str, leb,
  All, All-imp, ◌==◌, nat_eq, list_eq, list_beq_iff, if◌then◌else◌, arith, Bool-cases, inl, inr,
  if-branches,
}
use pocket_coder.Result.{Result, err}
use pocket_coder.Auth.{
  FailRecord, Service, AuthError, invalid_credentials, Library, max_fails_per_source, rate_window,
  in_window, recent_fails, count_source, limited, other_sources, clear_source, record_fail,
  is_account, login,
}
use pocket_coder.Auth.Limits.{IsWithinLimits, login-IsWithinLimits}

-- The failures of a source since a time.
since : ℕ → Str → List FailRecord → ℕ
since t p [] = 0
since t p (f ∷ fs) = let n = since t p fs in if f.source == p && leb t f.at then suc n else n

since-recent_fails :
    (t now : ℕ) (p : Str) (fs : List FailRecord)
    → now < t + rate_window
    → since t p (recent_fails now fs) ≡ since t p fs
unfolding since recent_fails in_window
since-recent_fails t now p [] h = refl
since-recent_fails t now p (f ∷ fs) h = ground (arith, since-recent_fails t now p fs h)

since-append_one :
    (t : ℕ) (p : Str) (fs : List FailRecord) (f : FailRecord)
    → since t p (fs ++ (f ∷ []))
      ≡ (if f.source == p && leb t f.at then suc (since t p fs) else since t p fs)
unfolding since
since-append_one t p [] f = ground arith
since-append_one t p (g ∷ fs) f = ground (arith, since-append_one t p fs f)

since-other_sources :
    (t : ℕ) (p q : Str) (fs : List FailRecord)
    → (q == p) ≡ false
    → since t p (other_sources q fs) ≡ since t p fs
unfolding since other_sources
since-other_sources t p q [] h = refl
since-other_sources t p q (f ∷ fs) h = ground (
  arith,
  since-other_sources t p q fs h,
  list_beq_iff f.source q,
  list_beq_iff f.source p,
  list_beq_iff q p,
  h,
)

since_le : (t : ℕ) (p : Str) (fs : List FailRecord) → since t p fs ≤ count_source p fs
unfolding since count_source
since_le t p [] = omega arith
since_le t p (f ∷ fs) = ground (arith, since_le t p fs)

abbrev is_wrong : Result AuthError Str → Bool
is_wrong (err invalid_credentials) = true
is_wrong _ = false

pub record Attempt : Type 0 where
  pub email : Str
  pub password : Str
  pub source : Str
  pub at : ℕ

module _ (lib : Library) where
  unfoldable pub try : Attempt → Service → Result AuthError Str × Service
  try a s = login lib a.email a.password a.source a.at s

  -- The attempts in turn: how many wrong passwords a source got checked, and the service after them.
  unfoldable pub tries : Str → List Attempt → Service → ℕ × Service
  tries p [] s = (0, s)
  tries p (a ∷ later) s =
      let rest = tries p later (try a s).1 in
      ((if a.source == p && is_wrong (try a s).0 then suc rest.0 else rest.0), rest.1)

  account-try :
      (email password : Str) (a : Attempt) (s : Service)
      → is_account lib email password (try a s).1 ≡ is_account lib email password s
  unfolding try login limited clear_source record_fail is_account
  account-try email password a s =
      if-branches
        (λ (r : Result AuthError Str × Service).
          is_account lib email password r.1 ≡ is_account lib email password s)
        (limited a.source a.at s).0 _ _ (λ full. refl)
        (λ free.
          if-branches
            (λ (r : Result AuthError Str × Service).
              is_account lib email password r.1 ≡ is_account lib email password s)
            (is_account lib a.email a.password s) _ _ (λ good. refl) (λ bad. refl))

  -- Within the window, each wrong password of a source adds one to its failures.
  since-try :
      (t : ℕ) (p : Str) (a : Attempt) (s : Service)
      → t ≤ a.at
      → a.at < t + rate_window
      → ((a.source == p) ≡ true → is_account lib a.email a.password s ≡ false)
      → since t p (try a s).1.fails ≡ (
          if a.source == p && is_wrong (try a s).0
          then suc (since t p s.fails)
          else since t p s.fails)
  unfolding try login limited clear_source record_fail
  since-try t p a s begun inside wrong =
      if-branches P (limited a.source a.at s).0 _ _
        (λ full. ground (arith, since-recent_fails t a.at p s.fails inside))
        (λ free.
          if-branches P (is_account lib a.email a.password s) _ _
            (λ good. elim (Bool-cases (a.source == p)) [
              | inl here ↦ absurd (cc (wrong here, good))
              | inr apart ↦
                  rw (since-other_sources t p a.source (recent_fails a.at s.fails) apart, apart)
                    (since-recent_fails t a.at p s.fails inside)
            ])
            (λ bad. ground (
              arith,
              since-append_one t p (recent_fails a.at s.fails)
                  (record { at = a.at; source = a.source }),
              since-recent_fails t a.at p s.fails inside,
            )))
    where
      P : Result AuthError Str × Service → Type 0
      P r =
          since t p r.1.fails
          ≡ (if a.source == p && is_wrong r.0 then suc (since t p s.fails) else since t p s.fails)

  tries-since :
      (t : ℕ) (p : Str) (attempts : List Attempt) (s : Service)
      → All (λ a. (t ≤ a.at) × (a.at < t + rate_window)) attempts
      → All (λ a. (a.source == p) ≡ true → is_account lib a.email a.password s ≡ false) attempts
      → (tries p attempts s).0 + since t p s.fails ≡ since t p (tries p attempts s).1.fails
  unfolding tries
  tries-since t p [] s inside wrong = omega arith
  tries-since t p (a ∷ later) s inside wrong =
      let ih =
        tries-since t p later (try a s).1 inside.1
          (All-imp later (λ b h own. account-try b.email b.password a s ∙ h own) wrong.1) in
      ground (arith, ih, since-try t p a s inside.0.0 inside.0.1 wrong.0)

  tries-IsWithinLimits :
      (p : Str) (attempts : List Attempt) (s : Service)
      → IsWithinLimits s
      → IsWithinLimits (tries p attempts s).1
  unfolding tries try
  tries-IsWithinLimits p [] s h = h
  tries-IsWithinLimits p (a ∷ later) s h =
      tries-IsWithinLimits p later (try a s).1
        (login-IsWithinLimits lib a.email a.password a.source a.at s h)

  -- From a service within its limits, a source that does not know the account gets at most ten of
  -- its attempts checked within any fifteen minutes, whatever order the attempts come in and
  -- whatever other sources try in between, successful or not; all its further attempts are refused unseen.
  pub tries_bounded :
      (t : ℕ) (p : Str) (attempts : List Attempt) (s : Service)
      → IsWithinLimits s
      → All (λ a. (t ≤ a.at) × (a.at < t + rate_window)) attempts
      → All (λ a. (a.source == p) ≡ true → is_account lib a.email a.password s ≡ false) attempts
      → (tries p attempts s).0 ≤ max_fails_per_source
  tries_bounded t p attempts s h inside wrong =
      let kept = (tries-IsWithinLimits p attempts s h).by_source p in
      let few = since_le t p (tries p attempts s).1.fails in
      let all = tries-since t p attempts s inside wrong in omega arith
