-- ===== src/State/Tests.antt =====
-- A state file that holds the email and the version of its account, and a token that is its claims.
use pocket_coder.Prelude.{
  ◌∙◌, take, drop, length, ◌++◌, ◌*◌, ℕ, ltb, lt→ltb, true, false, [], ◌∷◌, Option, none, some, ◌≡◌,
  refl, sym, ap, Str, codes, nat_eq, list_eq, list_beq, if◌then◌else◌, arith,
}
use pocket_coder.Result.{Result, ok, err}
use pocket_coder.Auth.Tokens.{IsParsedBack}
use pocket_coder.Auth.{second, Claims, Library, issue_token, require_auth}
use pocket_coder.State.{
  Document, StateStore, Json, written, zero_document, normalize_document, deepcopy, save_text,
  save_doc, commit, mutate, set_password, seed, seed_email, seed_ai,
}
use pocket_coder.State.Mutated.{
  IsMutated, mutate-IsMutated, service_of, with_password, set_password-revokes, KeepsUser, password,
  now_there,
}

-- The version, the length of the email, and the email before the hash.
print_user : Document → Str
print_user d = d.user.auth_version ∷ length d.user.email ∷ (d.user.email ++ d.user.password_hash)

read_user : Str → Result Str Document
read_user (v ∷ n ∷ s) = ok (record zero_document {
  user = record { email = take n s; password_hash = drop n s; auth_version = v };
})
read_user _ = err []

take-append_length : (xs ys : Str) → take (length xs) (xs ++ ys) ≡ xs
take-append_length [] ys = refl
take-append_length (x ∷ xs) ys = ap (λ (t : Str). x ∷ t) (take-append_length xs ys)

drop-append_length : (xs ys : Str) → drop (length xs) (xs ++ ys) ≡ ys
drop-append_length [] ys = refl
drop-append_length (x ∷ xs) ys = drop-append_length xs ys

abbrev json : Json
json = record {
  marshal = λ d. ok (print_user d);
  marshal_indent = λ d. ok (print_user d);
  unmarshal = read_user;
}

read_token : ℕ → Str → Option Claims
read_token n (v ∷ i ∷ e ∷ s) =
    if ltb n (e * second)
    then some (record { auth_version = v; subject = s; issued_at = i; expires_at = e })
    else none
read_token n _ = none

abbrev plain : Library
plain = record {
  id_key = λ password salt p. password;
  version = 19;
  print_version = λ n. [];
  scan_version = λ s. none;
  print_params = λ p. [];
  scan_params = λ s. none;
  encode64 = λ s. s;
  decode64 = λ s. some s;
  lower = λ s. s;
  trim = λ s. s;
  sign = λ secret c. ok (c.auth_version ∷ c.issued_at ∷ c.expires_at ∷ c.subject);
  parse = λ secret. read_token;
}

abbrev store : StateStore
store = record {
  doc = record zero_document {
    user = record { email = codes "me"; password_hash = []; auth_version = 1 };
  };
  file = some (codes "old");
  tmp = none;
}

plain-IsParsedBack : IsParsedBack plain (codes "key")
unfolding read_token
plain-IsParsedBack = record {
  back = λ c t n h k.
      let is : c.auth_version ∷ c.issued_at ∷ c.expires_at ∷ c.subject ≡ t = cc in
      rw (← is, lt→ltb n (c.expires_at * second) k) refl;
}

json-KeepsUser : KeepsUser json
unfolding deepcopy read_user print_user
json-KeepsUser = record {
  user = λ doc copy h.
      let text = doc.user.email ++ doc.user.password_hash in
      let n = length doc.user.email in
      let is : record zero_document {
        user = record {
          email = take n text;
          password_hash = drop n text;
          auth_version = doc.user.auth_version;
        };
      }
          ≡ copy =
        cc in
      ap (λ (d : Document). d.user) (sym is)
      ∙ (rw
          (
            take-append_length doc.user.email doc.user.password_hash,
            drop-append_length doc.user.email doc.user.password_hash,
          )
          refl);
}

mutate-IsMutated_example :
    IsMutated json
      (with_password (codes "me") (codes "new"))
      store
      (mutate json (with_password (codes "me") (codes "new")) written false store)
mutate-IsMutated_example =
    mutate-IsMutated json (with_password (codes "me") (codes "new")) store written false

set_test : (set_password json (codes "me") (codes "new") written true store).0 ≡ ok tt
unfolding set_password mutate deepcopy read_user print_user save_doc save_text commit
    normalize_document
set_test = refl

-- The store after the password was set once.
abbrev once : StateStore
once = (set_password json (codes "me") (codes "first") written true store).1

once_test : (set_password json (codes "me") (codes "new") written true once).0 ≡ ok tt
unfolding set_password mutate deepcopy read_user print_user save_doc save_text commit
    normalize_document
once_test = refl

-- A token from before both passwords.
set_password-revokes_example :
    require_auth plain 5 (some (1 ∷ 0 ∷ 604800 ∷ codes "me")) (
      service_of
        (codes "key")
        (set_password json (codes "me") (codes "new") written true once).1.doc)
    ≡ none
unfolding issue_token
set_password-revokes_example =
    set_password-revokes json json-KeepsUser plain (codes "key") (codes "me") (codes "new")
      (1 ∷ 0 ∷ 604800 ∷ codes "me") written true store once 0 5 plain-IsParsedBack
      (password now_there (codes "me") (codes "first") written true) once_test refl (omega arith)

-- A fresh file is seeded and saved; an existing email is kept.
seed_test :
    (seed (record { auth_email = codes "env"; ai = none }) store.doc).user.email ≡ codes "me"
unfolding seed seed_email seed_ai list_beq
seed_test = refl
