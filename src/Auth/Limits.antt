-- ===== src/Auth/Limits.antt =====
-- How many failures the login keeps on record.
use pocket_coder.Prelude.{
  ℕ, suc, ◌≤◌, ◌||◌, List, [], ◌∷◌, ◌++◌, ◌≡◌, refl, ap, Str, length, leb, ◌==◌, nat_eq, list_eq,
  list_beq_iff, if◌then◌else◌, arith, if-branches,
}
use pocket_coder.Result.{Result}
use pocket_coder.Auth.{
  FailRecord, Service, AuthError, Library, max_fails_per_source, max_fails_per_instance,
  recent_fails, count_source, limited, other_sources, clear_source, record_fail, is_account, login,
}

count-recent_fails :
    (source : Str) (now : ℕ) (fs : List FailRecord)
    → count_source source (recent_fails now fs) ≤ count_source source fs
unfolding count_source recent_fails
count-recent_fails source now [] = omega arith
count-recent_fails source now (f ∷ fs) = ground (arith, count-recent_fails source now fs)

length-recent_fails : (now : ℕ) (fs : List FailRecord) → length (recent_fails now fs) ≤ length fs
unfolding recent_fails
length-recent_fails now [] = omega arith
length-recent_fails now (f ∷ fs) = ground (arith, length-recent_fails now fs)

count-other_sources :
    (p source : Str) (fs : List FailRecord)
    → count_source p (other_sources source fs) ≤ count_source p fs
unfolding count_source other_sources
count-other_sources p source [] = omega arith
count-other_sources p source (f ∷ fs) = ground (arith, count-other_sources p source fs)

length-other_sources :
    (source : Str) (fs : List FailRecord) → length (other_sources source fs) ≤ length fs
unfolding other_sources
length-other_sources source [] = omega arith
length-other_sources source (f ∷ fs) = ground (arith, length-other_sources source fs)

count-append_one :
    (p : Str) (fs : List FailRecord) (f : FailRecord)
    → count_source p (fs ++ (f ∷ []))
      ≡ (if f.source == p then suc (count_source p fs) else count_source p fs)
unfolding count_source
count-append_one p [] f = ground arith
count-append_one p (g ∷ fs) f = ground (arith, count-append_one p fs f)

length-append_one :
    (fs : List FailRecord) (f : FailRecord) → length (fs ++ (f ∷ [])) ≡ suc (length fs)
length-append_one [] f = refl
length-append_one (g ∷ fs) f = ap suc (length-append_one fs f)

-- No source and no instance holds more failures than its limit.
pub record IsWithinLimits (s : Service) : Type 0 where
  pub by_source : (p : Str) → count_source p s.fails ≤ max_fails_per_source
  pub by_instance : length s.fails ≤ max_fails_per_instance

module _ (lib : Library) where
  -- However logins are tried, no source has more than ten failures on record, and the instance no
  -- more than fifty.
  pub login-IsWithinLimits :
      (email password source : Str) (now : ℕ) (s : Service)
      → IsWithinLimits s
      → IsWithinLimits (login lib email password source now s).1
  unfolding login limited clear_source record_fail
  login-IsWithinLimits email password source now s h =
      let kept = recent_fails now s.fails in
      if-branches (λ (r : Result AuthError Str × Service). IsWithinLimits r.1)
        (leb max_fails_per_source (count_source source kept)
          || leb max_fails_per_instance (length kept))
        _ _
        (λ full. record {
          by_source = λ p. ground (arith, count-recent_fails p now s.fails, h.by_source p);
          by_instance = ground (arith, length-recent_fails now s.fails, h.by_instance);
        })
        (λ free.
          if-branches (λ (r : Result AuthError Str × Service). IsWithinLimits r.1)
            (is_account lib email password s) _ _
            (λ yes'. record {
              by_source = λ p. ground (
                arith,
                count-other_sources p source kept,
                count-recent_fails p now s.fails,
                h.by_source p,
              );
              by_instance = ground (
                arith,
                length-other_sources source kept,
                length-recent_fails now s.fails,
                h.by_instance,
              );
            })
            (λ no'. record {
              by_source = λ p. ground (
                arith,
                count-append_one p kept (record { at = now; source = source }),
                free,
                list_beq_iff source p,
                count-recent_fails p now s.fails,
                h.by_source p,
              );
              by_instance =
                  ground
                    (arith, length-append_one kept (record { at = now; source = source }), free);
            }))
