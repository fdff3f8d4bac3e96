-- ===== src/State/Mutated.antt =====
-- What a mutation leaves in memory and on disk, and what a new password does to issued tokens.
use pocket_coder.Prelude.{
  ◌⊎◌, inl, inr, ◌≤◌, ◌≢◌, ◌*◌, ◌/◌, ℕ, suc, ◌+◌, ◌<◌, Bool, true, false, [], ◌∷◌, ◌++◌, none, some,
  ◌≡◌, refl, sym, ap, ◌∙◌, Str, nat_eq, list_eq, arith,
}
use pocket_coder.Result.{Result, ok, err, ◌>>=◌}
use pocket_coder.Auth.{second, Library, Service, new_service, issue_token, require_auth, token_ttl}
use pocket_coder.Auth.Tokens.{IsParsedBack, issue_token-require_auth}
use pocket_coder.State.{
  User, Document, StateStore, Json, Written, written, write_failed, normalize_document, deepcopy,
  save_text, save_doc, commit, mutate, set_password,
}

module _ (json : Json) (fn : Document → Result Str Document) (s : StateStore) where
  -- Memory and disk both hold what the function made of the copy, or both hold what they held.
  pub data IsMutated : Result Str (Unit {0}) × StateStore → Type 0 where
    is_saved :
        (copy doc : Document) (raw : Str)
        → deepcopy json s.doc ≡ ok copy
        → fn (normalize_document copy) ≡ ok doc
        → json.marshal_indent doc ≡ ok raw
        → IsMutated (ok tt, record { doc = doc; file = some (raw ++ (b'\n' ∷ [])); tmp = none })
    is_unchanged :
        (e : Str) (s' : StateStore) → s'.doc ≡ s.doc → s'.file ≡ s.file → IsMutated (err e, s')

  saved-IsMutated :
      (copy doc : Document) (wrote : Written) (renamed : Bool)
      → deepcopy json s.doc ≡ ok copy
      → fn (normalize_document copy) ≡ ok doc
      → IsMutated (commit json doc (save_doc json doc wrote renamed s))
  unfolding commit save_doc save_text
  saved-IsMutated copy doc wrote renamed c f = go wrote renamed (json.marshal_indent doc) refl
    where
      go :
          (w : Written) (b : Bool) (r : Result Str Str)
          → json.marshal_indent doc ≡ r
          → IsMutated (
              commit json doc (elim r as (λ _. Result Str (Unit {0}) × StateStore) [
                | err e ↦ (err e, s)
                | ok raw ↦ save_text json raw w b s
              ]))
      go w b (err e) m = is_unchanged e s refl refl
      go (write_failed part) b (ok raw) m = is_unchanged [] _ refl refl
      go written true (ok raw) m = is_saved copy doc raw c f m
      go written false (ok raw) m = is_unchanged [] _ refl refl

  -- Every mutation is all or nothing: it succeeds with the function's document, made from a copy of
  -- the current one, both current and in the state file; or it fails, in the copy, the function, the
  -- encoding, the write or the rename, with the current document and the state file as they were.
  pub mutate-IsMutated :
      (wrote : Written) (renamed : Bool) → IsMutated (mutate json fn wrote renamed s)
  unfolding mutate
  mutate-IsMutated wrote renamed = copied (deepcopy json s.doc) refl
    where
      made :
          (copy : Document) (r : Result Str Document)
          → deepcopy json s.doc ≡ ok copy
          → fn (normalize_document copy) ≡ r
          → IsMutated (elim r as (λ _. Result Str (Unit {0}) × StateStore) [
            | err e ↦ (err e, s)
            | ok doc ↦ commit json doc (save_doc json doc wrote renamed s)
          ])
      made copy (err e) c f = is_unchanged e s refl refl
      made copy (ok doc) c f = saved-IsMutated copy doc wrote renamed c f

      copied :
          (r : Result Str Document)
          → deepcopy json s.doc ≡ r
          → IsMutated
              (elim (r >>= λ copy. fn (normalize_document copy))
                as (λ _. Result Str (Unit {0}) × StateStore) [
                  | err e ↦ (err e, s)
                  | ok doc ↦ commit json doc (save_doc json doc wrote renamed s)
                ])
      copied (err e) c = is_unchanged e s refl refl
      copied (ok copy) c = made copy (fn (normalize_document copy)) c refl

-- The authentication that the server builds from a document, with its secret.
abbrev pub service_of : Str → Document → Service
service_of secret doc =
    new_service doc.user.email doc.user.password_hash doc.user.auth_version secret

abbrev pub with_password : Str → Str → Document → Result Str Document
with_password email hash doc = ok (record doc {
  user = record { email = email; password_hash = hash; auth_version = suc doc.user.auth_version };
})

-- Copying through JSON keeps the account.
pub record KeepsUser (json : Json) : Type 0 where
  pub user : (doc copy : Document) → deepcopy json doc ≡ ok copy → copy.user ≡ doc.user

abbrev version : StateStore → ℕ
version s = s.doc.user.auth_version

module _ (json : Json) (keeps : KeepsUser json) where
  set_password_version :
      (email hash : Str) (s : StateStore) (r : Result Str (Unit {0}) × StateStore)
      → IsMutated json (with_password email hash) s r
      → ((r.0 ≡ ok tt) × (version r.1 ≡ suc (version s)))
        ⊎ ((r.0 ≢ ok tt) × (version r.1 ≡ version s))
  unfolding normalize_document
  set_password_version email hash s _ (is_saved copy doc raw c f m) =
      let is : record (normalize_document copy) {
        user = record {
          email = email;
          password_hash = hash;
          auth_version = suc copy.user.auth_version;
        };
      }
          ≡ doc =
        cc in
      inl (
        refl,
        ap (λ (d : Document). d.user.auth_version) (sym is)
            ∙ ap (λ (u : User). suc u.auth_version) (keeps.user s.doc copy c),
      )
  set_password_version email hash s _ (is_unchanged e s' d f) =
      inr ((λ z. cc), ap (λ (x : Document). x.user.auth_version) d)

  mutate_version :
      (fn : Document → Result Str Document) (s : StateStore)
      (r : Result Str (Unit {0}) × StateStore)
      → ((d e : Document) → fn d ≡ ok e → e.user ≡ d.user)
      → IsMutated json fn s r
      → version r.1 ≡ version s
  unfolding normalize_document
  mutate_version fn s _ same (is_saved copy doc raw c f m) =
      ap (λ (u : User). u.auth_version)
        (same (normalize_document copy) doc f ∙ keeps.user s.doc copy c)
  mutate_version fn s _ same (is_unchanged e s' d f) = ap (λ (x : Document). x.user.auth_version) d

  -- The stores that come from one: by settings of the password and by mutations that leave the
  -- account alone, failed ones included.
  pub data Later (s : StateStore) : StateStore → Type 0 where
    now_there : Later s s
    password :
        {t : StateStore}
        → Later s t
        → (email hash : Str) (wrote : Written) (renamed : Bool)
        → Later s (set_password json email hash wrote renamed t).1
    mutation :
        {t : StateStore}
        → Later s t
        → (fn : Document → Result Str Document) (wrote : Written) (renamed : Bool)
        → ((d e : Document) → fn d ≡ ok e → e.user ≡ d.user)
        → Later s (mutate json fn wrote renamed t).1

  Later-version : {s t : StateStore} → Later s t → version s ≤ version t
  unfolding set_password
  Later-version now_there = omega arith
  Later-version (password {t} l email hash wrote renamed) =
      let before = Later-version l in
      elim (set_password_version email hash t _
        (mutate-IsMutated json (with_password email hash) t wrote renamed)) [
          | inl (done, v) ↦ rw v (omega arith)
          | inr (failed, v) ↦ rw v before
        ]
  Later-version (mutation {t} l fn wrote renamed same) =
      let before = Later-version l in
      rw (mutate_version fn t _ same (mutate-IsMutated json fn t wrote renamed)) before

  -- Once a password is set, every token that was issued before is refused: one that was issued for
  -- any document from which the store came by settings of the password and by mutations that leave
  -- the account alone, also where email and password are the same as then.
  pub set_password-revokes :
      (lib : Library) (secret email hash token : Str) (wrote : Written) (renamed : Bool)
      (s t : StateStore) (now after : ℕ)
      → IsParsedBack lib secret
      → Later s t
      → (set_password json email hash wrote renamed t).0 ≡ ok tt
      → issue_token lib secret s.doc.user.email s.doc.user.auth_version now ≡ ok token
      → after < (now + token_ttl) / second * second
      → require_auth lib after
          (some token)
          (service_of secret (set_password json email hash wrote renamed t).1.doc)
        ≡ none
  unfolding set_password new_service
  set_password-revokes lib secret email hash token wrote renamed s t now after law later done issued
        within =
      let older = Later-version later in
      issue_token-require_auth lib
        (service_of secret (set_password json email hash wrote renamed t).1.doc) s.doc.user.email
        token s.doc.user.auth_version now after law issued within
      ∙ elim (set_password_version email hash t _
          (mutate-IsMutated json (with_password email hash) t wrote renamed)) [
            | inl (z, v) ↦ ground (arith, v, older)
            | inr (failed, v) ↦ absurd (failed done)
          ]
