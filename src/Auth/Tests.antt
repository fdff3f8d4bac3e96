-- ===== src/Auth/Tests.antt =====
-- Logins with a library whose texts stand for themselves: base64 puts a mark before each byte, and
-- the key of a password is the password with the salt.
use pocket_coder.Prelude.{
  ◌*◌, ℕ, ◌+◌, ◌-◌, ◌≤◌, ltb, lt→ltb, true, false, List, [], ◌∷◌, Option, none, some, ◌≡◌, ◌≢◌,
  refl, Str, codes, length, split, has_byte, ◌==◌, nat_eq, list_eq, list_beq, if◌then◌else◌, arith,
}
use pocket_coder.Result.{ok, err}
use pocket_coder.Auth.{
  second, Params, FailRecord, Service, Claims, rate_limited, Library, rate_window,
  max_fails_per_source, new_service, recent_fails, count_source, in_window, limited, other_sources,
  clear_source, record_fail, normalize_email, is_account, login, issue_token, encode_hash,
  decode_hash, decode_parts, decode_bytes, verify_hash, require_auth,
}
use pocket_coder.Auth.Limits.{IsWithinLimits}
use pocket_coder.Auth.Guesses.{Attempt, try, tries, tries_bounded}
use pocket_coder.Auth.Lockout.{tries-login}
use pocket_coder.Auth.Tokens.{
  IsParsedBack, IsReadBack, verify_hash-encode_hash, issue_token-require_auth,
}

-- Each byte above the separator.
raise : Str → Str
raise [] = []
raise (c ∷ s) = (c + 37) ∷ raise s

unraise : Str → Option Str
unraise [] = some []
unraise (c ∷ s) = elim (unraise s) [ none ↦ none | some t ↦ some ((c - 37) ∷ t) ]

abbrev cost : Params
cost = record { time = 3; memory = 4; threads = 5; key_len = 1 }

first_or : ℕ → Str → Str
first_or n [] = n ∷ []
first_or n (c ∷ s) = c ∷ []

-- A token is its claims.
read_token : ℕ → Str → Option Claims
read_token n (v ∷ i ∷ e ∷ s) =
    if ltb n (e * second)
    then some (record { auth_version = v; subject = s; issued_at = i; expires_at = e })
    else none
read_token n _ = none

abbrev toy : Library
toy = record {
  id_key = λ password salt p. first_or 0 password;
  version = 19;
  print_version = λ n. codes "v";
  scan_version = λ s. some 19;
  print_params = λ p. codes "p";
  scan_params = λ s. some (record cost { key_len = 0 });
  encode64 = raise;
  decode64 = unraise;
  lower = λ s. s;
  trim = λ s. s;
  sign = λ secret c. ok (c.auth_version ∷ c.issued_at ∷ c.expires_at ∷ c.subject);
  parse = λ secret. read_token;
}

raise-unraise : (s : Str) → unraise (raise s) ≡ some s
unfolding raise unraise
raise-unraise [] = refl
raise-unraise (c ∷ s) = let e : c + 37 - 37 ≡ c = omega arith in rw (raise-unraise s, e) refl

raise-text : (s : Str) → has_byte b'$' (raise s) ≡ false
unfolding raise has_byte
raise-text [] = refl
raise-text (c ∷ s) = ground (arith, raise-text s)

first_or-length : (s : Str) → length (first_or 0 s) ≡ 1
unfolding first_or
first_or-length [] = refl
first_or-length (c ∷ s) = refl

first_or-some : (s : Str) → first_or 0 s ≢ []
unfolding first_or
first_or-some [] h = cc
first_or-some (c ∷ s) h = cc

toy-IsReadBack : IsReadBack toy cost
unfolding has_byte
toy-IsReadBack = record {
  version_text = refl;
  version_back = refl;
  params_text = refl;
  params_back = refl;
  text64 = raise-text;
  back64 = raise-unraise;
  key_length = λ password salt. first_or-length password;
  key_some = λ password salt. first_or-some password;
}

verify_hash-encode_hash_example :
    verify_hash toy (encode_hash toy (codes "pw") (codes "salt") cost) (codes "other")
    ≡ (first_or 0 (codes "other") == first_or 0 (codes "pw"))
verify_hash-encode_hash_example =
    verify_hash-encode_hash toy cost (codes "pw") (codes "other") (codes "salt") toy-IsReadBack
      (λ h. cc)

abbrev account : Service
account =
    new_service (codes "me") (encode_hash toy (codes "pw") (codes "salt") cost) 1 (codes "key")

abbrev wrong : ℕ → Attempt
wrong n = record { email = codes "me"; password = codes "x"; source = codes "1.2.3.4"; at = n }

abbrev attempts : List Attempt
attempts = wrong 1 ∷ wrong 2 ∷ wrong 3 ∷ []

account-IsWithinLimits : IsWithinLimits account
unfolding new_service count_source
account-IsWithinLimits = record { by_source = λ p. omega arith; by_instance = omega arith }

wrong-refused : is_account toy (codes "me") (codes "x") account ≡ false
unfolding is_account normalize_email verify_hash decode_hash decode_parts decode_bytes encode_hash
    split list_beq new_service raise unraise first_or
wrong-refused = refl

right-accepted : is_account toy (codes "me") (codes "pw") account ≡ true
unfolding is_account normalize_email verify_hash decode_hash decode_parts decode_bytes encode_hash
    split list_beq new_service raise unraise first_or
right-accepted = refl

tries_bounded_example : (tries toy (codes "1.2.3.4") attempts account).0 ≤ max_fails_per_source
tries_bounded_example =
    tries_bounded toy 0 (codes "1.2.3.4") attempts account account-IsWithinLimits
      ((omega arith, omega arith), ((omega arith, omega arith), ((omega arith, omega arith), tt)))
      ((λ h. wrong-refused), ((λ h. wrong-refused), ((λ h. wrong-refused), tt)))

three_checked : (tries toy (codes "1.2.3.4") attempts account).0 ≡ 3
unfolding tries try login limited recent_fails in_window count_source record_fail clear_source
    other_sources is_account normalize_email verify_hash decode_hash decode_parts decode_bytes
    encode_hash split list_beq new_service raise unraise first_or
three_checked = refl

-- The eleventh attempt is refused, whatever it is.
abbrev full : Service
full = record account { fails = ten 1 }
  where
    fail : ℕ → FailRecord
    fail n = record { at = n; source = codes "1.2.3.4" }

    ten : ℕ → List FailRecord
    ten n =
        fail n ∷ fail n ∷ fail n ∷ fail n ∷ fail n ∷ fail n ∷ fail n ∷ fail n ∷ fail n ∷ fail n ∷ []

eleventh_refused :
    (login toy (codes "me") (codes "pw") (codes "1.2.3.4") 2 full).0 ≡ err rate_limited
unfolding login limited recent_fails in_window count_source list_beq new_service
eleventh_refused = refl

tries-login_example :
    (login toy
      (codes "me")
      (codes "pw")
      (codes "5.6.7.8")
      (3 + rate_window)
      (tries toy (codes "1.2.3.4") attempts account).1).0
    ≡ issue_token toy (codes "key") (codes "me") 1 (3 + rate_window)
unfolding new_service
tries-login_example =
    tries-login toy (codes "1.2.3.4") (codes "me") (codes "pw") (codes "5.6.7.8") 3
      (3 + rate_window) attempts account refl (omega arith, (omega arith, (omega arith, tt)))
      (omega arith) right-accepted

toy-IsParsedBack : IsParsedBack toy (codes "key")
unfolding read_token
toy-IsParsedBack = record {
  back = λ c t n h k.
      let is : c.auth_version ∷ c.issued_at ∷ c.expires_at ∷ c.subject ≡ t = cc in
      rw (← is, lt→ltb n (c.expires_at * second) k) refl;
}

-- After the version was raised the token is refused.
issue_token-require_auth_example :
    require_auth toy 5 (some (1 ∷ 0 ∷ 604800 ∷ codes "me")) (record account { auth_version = 2 })
    ≡ none
unfolding issue_token new_service
issue_token-require_auth_example =
    issue_token-require_auth toy (record account { auth_version = 2 }) (codes "me")
      (1 ∷ 0 ∷ 604800 ∷ codes "me") 1 0 5 toy-IsParsedBack refl (omega arith)
