-- ===== src/Harness/Tests.antt =====
-- A registry with one edited harness, and JSON whose every text stands for its document.
use pocket_coder.Prelude.{
  list_beq, ◌+◌, ◌&&◌, leb, true, [], ◌∷◌, none, some, ◌≡◌, refl, Str, codes, nat_eq, list_eq,
  if◌then◌else◌,
}
use pocket_coder.Map.{get}
use pocket_coder.Result.{ok}
use pocket_coder.State.{
  Document, StateStore, Json, written, zero_document, deepcopy, save_text, save_doc, commit, mutate,
}
use pocket_coder.Harness.{builtin, slug, slug_from, trim_dash, registry, builtins, ensure_builtins}
use pocket_coder.Harness.Builtins.{or_builtin, first_builtin, ensure_builtins-keeps}

-- strings.ToLower on ASCII.
lower : Str → Str
lower [] = []
lower (c ∷ s) = (if leb b'A' c && leb c b'Z' then c + 32 else c) ∷ lower s

abbrev same : Str → Str
same s = s

abbrev edited : Document
edited = record zero_document {
  harnesses = some ((codes "claude", builtin (codes "Claude") (codes "claude --resume") []) ∷ []);
}

abbrev json : Json
json = record { marshal = λ d. ok []; marshal_indent = λ d. ok []; unmarshal = λ s. ok edited }

abbrev store : StateStore
store = record { doc = edited; file = none; tmp = none }

slug_test : slug lower same (codes " Claude  Code! ") ≡ codes "claude-code"
unfolding slug slug_from trim_dash lower
slug_test = refl

seeded : (ensure_builtins lower same json written true store).0 ≡ ok tt
unfolding ensure_builtins mutate deepcopy save_doc save_text commit
seeded = refl

ensure_builtins-keeps_example :
    get (codes "pi") (registry (ensure_builtins lower same json written true store).1.doc)
    ≡ or_builtin lower same (codes "pi") (get (codes "pi") (registry edited)) builtins
unfolding deepcopy
ensure_builtins-keeps_example =
    ensure_builtins-keeps lower same json written true store edited refl seeded (codes "pi")

-- The right side at that input.
added_test :
    or_builtin lower same (codes "pi") (get (codes "pi") (registry edited)) builtins
    ≡ some (record {
      id = codes "pi";
      name = codes "Pi";
      command = codes "pi";
      install = codes "npm install -g --ignore-scripts @earendil-works/pi-coding-agent";
      config_path = [];
      config = [];
    })
unfolding or_builtin first_builtin registry get list_beq slug slug_from trim_dash lower
added_test = refl
