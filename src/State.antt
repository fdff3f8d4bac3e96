-- ===== src/State.antt =====
-- server/internal/state/state.go: the state file. The document is kept in memory and on disk; JSON
-- is a parameter, and the disk's answers are arguments. A nil map is `none`.
pub mod Mutated
mod Tests
use pocket_coder.Prelude.{
  ℕ, suc, ◌&&◌, Bool, true, false, not, List, [], ◌∷◌, ◌++◌, Option, none, some, Str, ◌==◌, nat_eq,
  list_eq, if◌then◌else◌,
}
use pocket_coder.Map.{Map}
use pocket_coder.Result.{Result, ok, err, ◌>>=◌}

pub record User : Type 0 where
  pub email : Str
  pub password_hash : Str
  pub auth_version : ℕ

pub record Shortcut : Type 0 where
  pub id : Str
  pub alias : Str
  pub kind : Str
  pub command : Str
  pub keys : Str

pub record SessionMeta : Type 0 where
  pub harness : Str

pub record Project : Type 0 where
  pub repo : Str
  pub branch : Str
  pub harnesses : Map Str Str
  pub sessions : Map Str SessionMeta
  pub shortcuts : List Shortcut

pub record Harness : Type 0 where
  pub id : Str
  pub name : Str
  pub command : Str
  pub install : Str
  pub config_path : Str
  pub config : Str

pub record AiModel : Type 0 where
  pub id : Str
  pub label : Str
  pub base_url : Str
  pub api_key : Str
  pub model : Str

pub record ServerSshKey : Type 0 where
  pub private_key : Str
  pub public_key : Str
  pub fingerprint : Str
  pub created_at : Str

pub record Document : Type 0 where
  pub user : User
  pub ai_models : List AiModel
  pub projects : Option (Map Str Project)
  pub harnesses : Option (Map Str Harness)
  pub server_key : Option ServerSshKey

pub record Bootstrap : Type 0 where
  pub auth_email : Str
  pub ai : Option AiModel

-- The document in memory, the text of state.json and that of its temporary neighbour.
pub record StateStore : Type 0 where
  pub doc : Document
  pub file : Option Str
  pub tmp : Option Str

-- Encoding JSON, compact or indented, and decoding it into a zero document.
pub record Json : Type 0 where
  pub marshal : Document → Result Str Str
  pub marshal_indent : Document → Result Str Str
  pub unmarshal : Str → Result Str Document

-- The answers of the disk: a failed write leaves some text, or none.
pub data Written : Type 0 where
  written : Written
  write_failed : Option Str → Written

abbrev pub zero_document : Document
zero_document = record {
  user = record { email = []; password_hash = []; auth_version = 0 };
  ai_models = [];
  projects = none;
  harnesses = none;
  server_key = none;
}

unfoldable pub first_ai_model : Document → Option AiModel
first_ai_model doc = elim (doc.ai_models) [ [] ↦ none | ◌∷◌ m ms ↦ some m ]

abbrev pub some_map {ℓ} : {V : Type ℓ} → Option (Map Str V) → Option (Map Str V)
some_map none = some []
some_map (some m) = some m

unfoldable pub normalize_document : Document → Document
normalize_document doc = record doc {
  projects = some_map doc.projects;
  harnesses = some_map doc.harnesses;
}

unfoldable pub seed_email : Bootstrap → Document → Document
seed_email b doc =
    if not (b.auth_email == []) && doc.user.email == []
    then record doc { user = record doc.user { email = b.auth_email } }
    else doc

unfoldable pub seed_ai : Bootstrap → Document → Document
seed_ai b doc = elim (b.ai) [
  | none ↦ doc
  | some m ↦ elim (doc.ai_models) [ [] ↦ record doc { ai_models = m ∷ [] } | ◌∷◌ n ns ↦ doc ]
]

unfoldable pub seed : Bootstrap → Document → Document
seed b doc = seed_ai b (seed_email b doc)

module _ (json : Json) where
  unfoldable pub deepcopy : Document → Result Str Document
  deepcopy doc = json.marshal doc >>= json.unmarshal

  -- The text goes to the temporary file, which a rename puts in the file's place.
  unfoldable pub save_text : Str → Written → Bool → StateStore → Result Str (Unit {0}) × StateStore
  save_text raw (write_failed part) renamed s = (err [], record s { tmp = part })
  save_text raw written renamed s =
      if renamed
      then (ok tt, record s { file = some (raw ++ (b'\n' ∷ [])); tmp = none })
      else (err [], record s { tmp = some (raw ++ (b'\n' ∷ [])) })

  unfoldable pub save_doc :
      Document → Written → Bool → StateStore → Result Str (Unit {0}) × StateStore
  save_doc doc wrote renamed s = elim (json.marshal_indent doc) [
    | err e ↦ (err e, s)
    | ok raw ↦ save_text raw wrote renamed s
  ]

  -- The clone becomes current once it is saved.
  unfoldable pub commit :
      Document → Result Str (Unit {0}) × StateStore → Result Str (Unit {0}) × StateStore
  commit clone (err e, s) = (err e, s)
  commit clone (ok u, s) = (ok u, record s { doc = clone })

  unfoldable pub mutate :
      (Document → Result Str Document)
      → Written
      → Bool
      → StateStore
      → Result Str (Unit {0}) × StateStore
  mutate fn wrote renamed s = elim (deepcopy s.doc >>= λ clone. fn (normalize_document clone)) [
    | err e ↦ (err e, s)
    | ok clone ↦ commit clone (save_doc clone wrote renamed s)
  ]

  unfoldable pub set_password :
      Str → Str → Written → Bool → StateStore → Result Str (Unit {0}) × StateStore
  set_password email hash = mutate (λ doc. ok (record doc {
    user = record { email = email; password_hash = hash; auth_version = suc doc.user.auth_version };
  }))

  -- `Open` with the file's text, none where it does not exist.
  unfoldable pub open_state : Option Str → Bootstrap → Written → Bool → Result Str StateStore
  open_state (some raw) b wrote renamed =
      json.unmarshal raw >>= λ doc. ok (record { doc = seed b doc; file = some raw; tmp = none })
  open_state none b wrote renamed =
      let r =
        save_doc (seed b zero_document) wrote renamed
          (record { doc = seed b zero_document; file = none; tmp = none }) in
      r.0 >>= λ u. ok (r.1)
