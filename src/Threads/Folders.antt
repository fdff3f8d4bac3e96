-- ===== src/Threads/Folders.antt =====
-- The records of the thread store, and reading and writing one folder. A turn file whose JSON does
-- not parse is none. The result of a write to the disk is an argument. Payloads and arguments are
-- opaque JSON.
use pocket_coder.Prelude.{
  ℕ, Bool, ◌&&◌, ◌||◌, List, [], ◌∷◌, any, Option, none, some, Str, codes, get_last?, ltb, ◌==◌,
  nat_eq, list_eq, if◌then◌else◌,
}
use pocket_coder.Map.{Map, get, put}
use pocket_coder.Order.{sort}
use pocket_coder.Result.{Result, ok, err}

pub record Turn : Type 0 where
  pub turn_id : Str
  pub prompt : Str
  pub time : ℕ
  pub error : Option Str
  pub sha : Str
  pub project_hint : Str
  pub payload : Str

pub record ThreadManifest : Type 0 where
  pub id : Str
  pub title : Str
  pub created_at : ℕ

-- The zero time is 0.
pub record Approval : Type 0 where
  pub id : Str
  pub turn_id : Str
  pub status : Str
  pub tool : Str
  pub args : Str
  pub summary : Str
  pub blast_radius : Str
  pub created_at : ℕ
  pub resolved_at : ℕ

abbrev pub approval_pending : Str
approval_pending = codes "pending"

abbrev pub approval_approved : Str
approval_approved = codes "approved"

abbrev pub approval_discarded : Str
approval_discarded = codes "discarded"

pub record Thread : Type 0 where
  pub id : Str
  pub title : Str
  pub created_at : ℕ
  pub updated_at : ℕ
  pub turns : List Turn
  pub approvals : List Approval

-- What a folder's files say: no approvals file reads as no approvals.
pub record Folder : Type 0 where
  pub manifest : Option ThreadManifest
  pub turns : Map ℕ (Option Turn)
  pub lineages : Map ℕ Str
  pub approvals : List Approval

pub record Store : Type 0 where
  pub has_approvals : Bool
  pub folders : Map Str Folder

pub data StoreError : Type 0 where
  prompt_required : StoreError
  unknown_thread : StoreError
  unknown_turn : StoreError
  bad_turn : StoreError
  pending_approval : StoreError
  scope_required : StoreError
  approvals_off : StoreError
  bad_approval : StoreError
  invalid_status : StoreError
  unknown_approval : StoreError
  already_resolved : StoreError
  write_failed : Str → StoreError

unfoldable pub empty_folder : Folder
empty_folder = record { manifest = none; turns = []; lineages = []; approvals = [] }

unfoldable pub read_turn : ℕ → Folder → Option Turn
read_turn n f = elim (get n f.turns) [
  | none ↦ none
  | some none ↦ none
  | some (some t) ↦ if t.turn_id == [] || t.prompt == [] then none else some t
]

unfoldable pub check_manifest : ThreadManifest → Option ThreadManifest
check_manifest m = if m.id == [] || m.created_at == 0 then none else some m

unfoldable pub read_manifest : Folder → Option ThreadManifest
read_manifest f = elim (f.manifest) [ none ↦ none | some m ↦ check_manifest m ]

-- The folder at a path if it has a valid manifest.
unfoldable pub find_folder : Str → Store → Option Folder
find_folder dir s = elim (get dir s.folders) [
  | none ↦ none
  | some f ↦ elim (read_manifest f) [ none ↦ none | some m ↦ some f ]
]

unfoldable pub put_folder : Str → Folder → Store → Store
put_folder dir f s = record s { folders = put dir f s.folders }

unfoldable pub turn_numbers : Map ℕ (Option Turn) → List ℕ
turn_numbers [] = []
turn_numbers ((n, t) ∷ m) = n ∷ turn_numbers m

unfoldable pub sorted_turn_ns : Folder → List ℕ
sorted_turn_ns f = sort ltb (turn_numbers f.turns)

unfoldable pub max_turn_n : Folder → ℕ
max_turn_n f = elim (get_last? (sorted_turn_ns f)) [ none ↦ 0 | some n ↦ n ]

unfoldable pub placeholder : Str → Str → Str → Str → ℕ → Turn
placeholder turn_id sha prompt payload now = record {
  turn_id = turn_id;
  prompt = prompt;
  time = now;
  error = none;
  sha = sha;
  project_hint = [];
  payload = payload;
}

-- A write of one turn file, which leaves the store as it is where the disk refuses.
unfoldable pub write_turn :
    Option Str → Str → Folder → ℕ → Turn → Store → Result StoreError (Unit {0}) × Store
write_turn (some e) dir f n t s = (err (write_failed e), s)
write_turn none dir f n t s =
    (ok tt, put_folder dir (record f { turns = put n (some t) f.turns }) s)

unfoldable pub approval_status : Approval → Str
approval_status a = if a.status == [] then approval_pending else a.status

unfoldable pub is_pending : Approval → Bool
is_pending a = approval_status a == approval_pending

unfoldable pub blocks : Store → Folder → Bool
blocks s f = s.has_approvals && any is_pending f.approvals

-- Keeps the value of a success beside what it names.
unfoldable pub with_value {ℓ} :
    {A : Type ℓ} → A → Result StoreError (Unit {0}) × Store → Result StoreError A × Store
with_value a (ok u, s) = (ok a, s)
with_value a (err e, s) = (err e, s)
