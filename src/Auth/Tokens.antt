-- ===== src/Auth/Tokens.antt =====
-- Hashes and tokens: what was issued is accepted, and for whom.
use pocket_coder.Prelude.{
  ◌*◌, ◌/◌, ℕ, ◌+◌, ◌<◌, false, ◌&&◌, List, [], ◌∷◌, ◌++◌, none, some, ◌≡◌, ◌≢◌, refl, ap, ◌∙◌, Str,
  codes, length, split, has_byte, split-whole, split-append, ◌==◌, ==_refl, nat_eq, list_eq,
  list_beq, if◌then◌else◌,
}
use pocket_coder.Result.{Result, ok, err}
use pocket_coder.Auth.{
  Params, Service, Claims, AuthError, signing, Library, token_ttl, second, encode_hash, decode_hash,
  decode_parts, decode_bytes, verify_hash, issue_token, require_auth,
}

-- The texts that the library prints have no `$` and are read back, the key's length being the hash's.
pub record IsReadBack (lib : Library) (p : Params) : Type 0 where
  pub version_text : has_byte b'$' (lib.print_version lib.version) ≡ false
  pub version_back : lib.scan_version (lib.print_version lib.version) ≡ some lib.version
  pub params_text : has_byte b'$' (lib.print_params p) ≡ false
  pub params_back : lib.scan_params (lib.print_params p) ≡ some (record p { key_len = 0 })
  pub text64 : (s : Str) → has_byte b'$' (lib.encode64 s) ≡ false
  pub back64 : (s : Str) → lib.decode64 (lib.encode64 s) ≡ some s
  pub key_length : (password salt : Str) → length (lib.id_key password salt p) ≡ p.key_len
  pub key_some : (password salt : Str) → lib.id_key password salt p ≢ []

list_beq-nil : (s : Str) → s ≢ [] → (s == []) ≡ false
unfolding list_beq
list_beq-nil [] h = absurd (h refl)
list_beq-nil (c ∷ s) h = refl

split-encode_hash :
    (lib : Library) (p : Params) (password salt : Str)
    → IsReadBack lib p
    → split b'$' (encode_hash lib password salt p)
      ≡ []
        ∷ codes "argon2id"
        ∷ lib.print_version lib.version
        ∷ lib.print_params p
        ∷ lib.encode64 salt
        ∷ lib.encode64 (lib.id_key password salt p)
        ∷ []
unfolding encode_hash has_byte
split-encode_hash lib p password salt law =
    let key = lib.encode64 (lib.id_key password salt p) in
    let s5 = lib.encode64 salt ++ (b'$' ∷ key) in
    let s4 = lib.print_params p ++ (b'$' ∷ s5) in
    let s3 = lib.print_version lib.version ++ (b'$' ∷ s4) in
    split-append b'$' [] (codes "argon2id" ++ (b'$' ∷ s3)) refl
    ∙ ap (λ (ps : List Str). [] ∷ ps)
        (split-append b'$' (codes "argon2id") s3 refl
          ∙ ap (λ (ps : List Str). codes "argon2id" ∷ ps)
              (split-append b'$' (lib.print_version lib.version) s4 law.version_text
                ∙ ap (λ (ps : List Str). lib.print_version lib.version ∷ ps)
                    (split-append b'$' (lib.print_params p) s5 law.params_text
                      ∙ ap (λ (ps : List Str). lib.print_params p ∷ ps)
                          (split-append b'$' (lib.encode64 salt) key (law.text64 salt)
                            ∙ ap (λ (ps : List Str). lib.encode64 salt ∷ ps)
                                (split-whole b'$' key (law.text64 (lib.id_key password salt p)))))))

decode_hash-encode_hash :
    (lib : Library) (p : Params) (password salt : Str)
    → IsReadBack lib p
    → salt ≢ []
    → decode_hash lib (encode_hash lib password salt p) ≡ some (p, salt, lib.id_key password salt p)
unfolding decode_hash decode_parts decode_bytes list_beq
decode_hash-encode_hash lib p password salt law salted =
    let key = lib.id_key password salt p in
    ap (decode_parts lib) (split-encode_hash lib p password salt law)
    ∙ (rw
        (
          law.version_back,
          ==_refl lib.version,
          law.params_back,
          law.back64 salt,
          law.back64 key,
          list_beq-nil salt salted,
          list_beq-nil key (law.key_some password salt),
          law.key_length password salt,
        )
        refl)

-- A stored hash is read back with its salt, its parameters and its key, and accepts exactly the
-- passwords whose key is that of the password it was made from.
pub verify_hash-encode_hash :
    (lib : Library) (p : Params) (password other salt : Str)
    → IsReadBack lib p
    → salt ≢ []
    → verify_hash lib (encode_hash lib password salt p) other
      ≡ (lib.id_key other salt p == lib.id_key password salt p)
unfolding verify_hash
verify_hash-encode_hash lib p password other salt law salted =
    rw (verify_hash, decode_hash-encode_hash lib p password salt law salted) refl

-- What is signed with a secret parses back with it until it expires.
pub record IsParsedBack (lib : Library) (secret : Str) : Type 0 where
  pub back :
      (c : Claims) (t : Str) (n : ℕ)
      → lib.sign secret c ≡ ok t
      → n < c.expires_at * second
      → lib.parse secret n t ≡ some c

-- A token that was issued with a secret, an email and an authentication version is accepted by a
-- service with the same secret until the second in which it expires exactly if the service has the
-- same email and the same version, and its holder is the account.
pub issue_token-require_auth :
    (lib : Library) (later : Service) (email token : Str) (version now after : ℕ)
    → IsParsedBack lib later.secret
    → issue_token lib later.secret email version now ≡ ok token
    → after < (now + token_ttl) / second * second
    → require_auth lib after (some token) later
      ≡ (if version == later.auth_version && email == later.email then some later.email else none)
unfolding issue_token require_auth
issue_token-require_auth lib later email token version now after law issued within =
    rw
      (
        require_auth,
        law.back claims token after (signed (lib.sign later.secret claims) refl issued) within,
      )
      refl
  where
    claims : Claims
    claims = record {
      auth_version = version;
      subject = email;
      issued_at = now / second;
      expires_at = (now + token_ttl) / second;
    }

    signed :
        (r : Result Str Str)
        → lib.sign later.secret claims ≡ r
        → (elim r as (λ _. Result AuthError Str) [ err text ↦ err (signing text) | ok t ↦ ok t ])
          ≡ ok token
        → lib.sign later.secret claims ≡ ok token
    signed (err e) h z = cc
    signed (ok t) h z = h ∙ (let is : t ≡ token = cc in ap ok is)
