-- ===== src/Auth.antt =====
-- server/internal/auth/auth.go: the one account, its login limits, and the tokens. Argon2, base64,
-- fmt and the JWT library are the fields of `Library`; the clock's value is an argument.
pub mod Limits
pub mod Guesses
pub mod Lockout
pub mod Tokens
mod Tests
use pocket_coder.Prelude.{
  ℕ, suc, ◌+◌, ◌*◌, ◌/◌, ◌-◌, Bool, true, false, ◌&&◌, ◌||◌, not, List, [], ◌∷◌, ◌++◌, Option, none,
  some, Str, codes, length, split, ltb, leb, ◌==◌, nat_eq, list_eq, if◌then◌else◌,
}
use pocket_coder.Result.{Result, ok, err}

-- In nanoseconds.
abbrev pub second : ℕ
second = 1000000000

abbrev pub minute : ℕ
minute = 60 * second

abbrev pub token_ttl : ℕ
token_ttl = 7 * 24 * 60 * minute

abbrev pub max_fails_per_source : ℕ
max_fails_per_source = 10

abbrev pub max_fails_per_instance : ℕ
max_fails_per_instance = 50

abbrev pub rate_window : ℕ
rate_window = 15 * minute

pub record Params : Type 0 where
  pub time : ℕ
  pub memory : ℕ
  pub threads : ℕ
  pub key_len : ℕ

pub record FailRecord : Type 0 where
  pub at : ℕ
  pub source : Str

pub record Service : Type 0 where
  pub email : Str
  pub pass_hash : Str
  pub auth_version : ℕ
  pub secret : Str
  pub fails : List FailRecord

-- The times are whole seconds, as jwt.NewNumericDate makes them.
pub record Claims : Type 0 where
  pub auth_version : ℕ
  pub subject : Str
  pub issued_at : ℕ
  pub expires_at : ℕ

pub data AuthError : Type 0 where
  invalid_credentials rate_limited : AuthError
  signing : Str → AuthError

pub record Library : Type 0 where
  pub id_key : Str → Str → Params → Str
  -- The version of Argon2, its text in a hash and the scanning of it.
  pub version : ℕ
  pub print_version : ℕ → Str
  pub scan_version : Str → Option ℕ
  pub print_params : Params → Str
  pub scan_params : Str → Option Params
  pub encode64 : Str → Str
  pub decode64 : Str → Option Str
  pub lower : Str → Str
  pub trim : Str → Str
  pub sign : Str → Claims → Result Str Str
  -- The claims of a token that has the signature of a secret and is valid at a time.
  pub parse : Str → ℕ → Str → Option Claims

unfoldable pub new_service : Str → Str → ℕ → Str → Service
new_service email hash version secret = record {
  email = email;
  pass_hash = hash;
  auth_version = version;
  secret = secret;
  fails = [];
}

-- `now.Sub(f.at) < rateWindow`; a record from the future is in the window as well.
unfoldable pub in_window : ℕ → FailRecord → Bool
in_window now f = ltb (now - f.at) rate_window

unfoldable pub recent_fails : ℕ → List FailRecord → List FailRecord
recent_fails now [] = []
recent_fails now (f ∷ fs) =
    let rest = recent_fails now fs in if in_window now f then f ∷ rest else rest

unfoldable pub count_source : Str → List FailRecord → ℕ
count_source source [] = 0
count_source source (f ∷ fs) =
    let n = count_source source fs in if f.source == source then suc n else n

-- `limitedLocked` also forgets the failures that have left the window.
unfoldable pub limited : Str → ℕ → Service → Bool × Service
limited source now s =
    let kept = recent_fails now s.fails in
    (
      leb max_fails_per_source (count_source source kept)
          || leb max_fails_per_instance (length kept),
      record s { fails = kept },
    )

unfoldable pub other_sources : Str → List FailRecord → List FailRecord
other_sources source [] = []
other_sources source (f ∷ fs) =
    let rest = other_sources source fs in if f.source == source then rest else f ∷ rest

unfoldable pub clear_source : Str → Service → Service
clear_source source s = record s { fails = other_sources source s.fails }

unfoldable pub record_fail : Str → ℕ → Service → Service
record_fail source now s = record s {
  fails = s.fails ++ (record { at = now; source = source } ∷ []);
}

module _ (lib : Library) where
  unfoldable pub normalize_email : Str → Str
  normalize_email email = lib.lower (lib.trim email)

  -- `$argon2id$v=..$m=..,t=..,p=..$salt$hash`
  unfoldable pub encode_hash : Str → Str → Params → Str
  encode_hash password salt p =
      b'$'
      ∷ (codes "argon2id"
          ++ (b'$'
              ∷ (lib.print_version lib.version
                  ++ (b'$'
                      ∷ (lib.print_params p
                          ++ (b'$'
                              ∷ (lib.encode64 salt
                                  ++ (b'$' ∷ lib.encode64 (lib.id_key password salt p)))))))))

  unfoldable pub decode_bytes : Params → Option Str → Option Str → Option (Params × Str × Str)
  decode_bytes p (some salt) (some hash) =
      if salt == [] || hash == []
      then none
      else some (record p { key_len = length hash }, salt, hash)
  decode_bytes p _ _ = none

  unfoldable pub decode_parts : List Str → Option (Params × Str × Str)
  decode_parts (a ∷ kind ∷ v ∷ ps ∷ salt ∷ hash ∷ []) =
      if not (kind == codes "argon2id") then none else elim (lib.scan_version v) [
        | none ↦ none
        | some n ↦ if not (n == lib.version) then none else elim (lib.scan_params ps) [
          | none ↦ none
          | some p ↦ decode_bytes p (lib.decode64 salt) (lib.decode64 hash)
        ]
      ]
  decode_parts _ = none

  unfoldable pub decode_hash : Str → Option (Params × Str × Str)
  decode_hash encoded = decode_parts (split b'$' encoded)

  unfoldable pub verify_hash : Str → Str → Bool
  verify_hash encoded password = elim (decode_hash encoded) [
    | none ↦ false
    | some d ↦ lib.id_key password d.1 d.0 == d.2
  ]

  unfoldable pub issue_token : Str → Str → ℕ → ℕ → Result AuthError Str
  issue_token secret email version now =
      elim (lib.sign secret (record {
        auth_version = version;
        subject = email;
        issued_at = now / second;
        expires_at = (now + token_ttl) / second;
      })) [ err text ↦ err (signing text) | ok token ↦ ok token ]

  -- The account that the email and the password name; the check against a dummy is for its time.
  unfoldable pub is_account : Str → Str → Service → Bool
  is_account email password s =
      normalize_email email == s.email
      && (not (s.pass_hash == []) && verify_hash s.pass_hash password)

  unfoldable pub login : Str → Str → Str → ℕ → Service → Result AuthError Str × Service
  login email password source now s =
      let l = limited source now s in
      if l.0
      then (err rate_limited, l.1)
      else if is_account email password s
      then (issue_token s.secret s.email s.auth_version now, clear_source source l.1)
      else (err invalid_credentials, record_fail source now l.1)

  -- The email of a request that `RequireAuth` lets through; none is a 401.
  unfoldable pub require_auth : ℕ → Option Str → Service → Option Str
  require_auth now none s = none
  require_auth now (some token) s = elim (lib.parse s.secret now token) [
    | none ↦ none
    | some c ↦
        if c.auth_version == s.auth_version && c.subject == s.email then some s.email else none
  ]
