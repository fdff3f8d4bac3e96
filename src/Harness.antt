-- ===== src/Harness.antt =====
-- server/internal/harness/harness.go: the registry of harness plugins in the state file.
-- strings.ToLower and strings.TrimSpace are `lower` and `trim`.
pub mod Builtins
mod Tests
use pocket_coder.Prelude.{
  ℕ, Bool, true, false, ◌&&◌, ◌||◌, not, List, [], ◌∷◌, ◌++◌, Option, none, some, Str, codes, leb,
  ◌==◌, nat_eq, list_eq, if◌then◌else◌,
}
use pocket_coder.Map.{Map, get, put, del, has}
use pocket_coder.Result.{Result, ok, err}
use pocket_coder.State.{Document, Harness, StateStore, Json, Written, mutate, some_map}

abbrev pub is_slug_byte : ℕ → Bool
is_slug_byte c = (leb b'a' c && leb c b'z') || (leb b'0' c && leb c b'9')

-- The loop of `Slug`; a rune outside ASCII is a run of bytes outside the slug's.
unfoldable pub slug_from : Bool → Str → Str
slug_from last_dash [] = []
slug_from last_dash (c ∷ s) =
    let word = slug_from false s in
    let gap = slug_from true s in
    if is_slug_byte c then c ∷ word else if not last_dash then b'-' ∷ gap else gap

-- `strings.TrimSuffix(s, "-")`
unfoldable pub trim_dash : Str → Str
trim_dash [] = []
trim_dash (c ∷ []) = if c == b'-' then [] else c ∷ []
trim_dash (c ∷ d ∷ s) = c ∷ trim_dash (d ∷ s)

-- The registry of a document, which `normalize` makes a map.
unfoldable pub registry : Document → Map Str Harness
registry doc = elim (doc.harnesses) [ none ↦ [] | some m ↦ m ]

abbrev pub builtin : Str → Str → Str → Harness
builtin name command install = record {
  id = [];
  name = name;
  command = command;
  install = install;
  config_path = [];
  config = [];
}

abbrev pub builtins : List Harness
builtins =
    builtin (codes "Terminal") (codes "bash") []
    ∷ builtin (codes "OpenCode") (codes "opencode") (codes "npm i -g opencode-ai")
    ∷ builtin (codes "Codex") (codes "codex") (codes "npm i -g @openai/codex")
    ∷ builtin (codes "Claude") (codes "claude") (codes "npm i -g @anthropic-ai/claude-code")
    ∷ builtin (codes "Freebuff") (codes "freebuff")
        (codes "npm i -g freebuff && freebuff --version || true")
    ∷ builtin (codes "Cline") (codes "cline") (codes "npm i -g cline")
    ∷ builtin (codes "Pi") (codes "pi")
        (codes "npm install -g --ignore-scripts @earendil-works/pi-coding-agent")
    ∷ builtin (codes "Kiro") (codes "kiro-cli")
        (codes "curl -fsSL https://cli.kiro.dev/install | bash")
    ∷ []

module _ (lower trim : Str → Str) where
  unfoldable pub slug : Str → Str
  slug name = trim_dash (slug_from true (lower name))

  unfoldable pub get_harness : Str → StateStore → Result Str Harness
  get_harness id s = elim (get id (registry s.doc)) [
    | none ↦ err (codes "no such harness")
    | some h ↦ ok (record h { id = id })
  ]

  unfoldable pub put_new : Str → Harness → Document → Result Str Document
  put_new id h doc =
      if has id (registry doc)
      then err (codes "already exists")
      else ok (record doc { harnesses = some (put id (record h { id = id }) (registry doc)) })

  unfoldable pub save_harness :
      Json → Harness → Written → Bool → StateStore → Result Str (Unit {0}) × StateStore
  save_harness json h wrote renamed s =
      if slug h.name == []
      then (err (codes "no usable characters"), s)
      else if trim h.command == []
      then (err (codes "name and command are required"), s)
      else mutate json (put_new (slug h.name) h) wrote renamed s

  unfoldable pub remove_harness :
      Json → Str → Written → Bool → StateStore → Result Str (Unit {0}) × StateStore
  remove_harness json id =
      mutate json (λ doc. ok (record doc { harnesses = some (del id (registry doc)) }))

  -- The loop of `EnsureBuiltins`.
  unfoldable pub add_builtins : List Harness → Map Str Harness → Map Str Harness
  add_builtins [] m = m
  add_builtins (b ∷ bs) m =
      add_builtins bs
        (if has (slug b.name) m then m else put (slug b.name) (record b { id = slug b.name }) m)

  unfoldable pub ensure_builtins :
      Json → Written → Bool → StateStore → Result Str (Unit {0}) × StateStore
  ensure_builtins json =
      mutate json
        (λ doc. ok (record doc { harnesses = some (add_builtins builtins (registry doc)) }))
