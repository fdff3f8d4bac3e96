-- ===== src/Preview/Janitor.antt =====
-- server/internal/preview/janitor.go: removing the preview containers that no live worker owns,
-- with `SanitizeName` of server/internal/project/repo.go. Project ids and container names are lists
-- of runes; `to_lower` stands for strings.ToLower. The answers of Docker are arguments.
pub mod Owned
mod Tests
use pocket_coder.Prelude.{
  ℕ, ◌≤◌, Bool, true, false, ◌&&◌, ◌||◌, not, List, [], ◌∷◌, ◌++◌, map, Option, none, some, Str,
  codes, leb, any, ◌==◌, nat_eq, list_eq, if◌then◌else◌, has_prefix, trim_prefix,
}
use pocket_coder.Preview.Manager.{Manager, keys}

unfoldable pub is_trimmed : ℕ → Bool
is_trimmed r = r == b'-' || r == b'.'

-- `strings.Trim` with the cutset "-.".
unfoldable pub trim_left : Str → Str
trim_left [] = []
trim_left (c ∷ s) = let rest = trim_left s in if is_trimmed c then rest else c ∷ s

unfoldable pub trim_right : Str → Str
trim_right [] = []
trim_right (c ∷ s) = let rest = trim_right s in if rest == [] && is_trimmed c then [] else c ∷ rest

unfoldable pub slug_rune : ℕ → ℕ
slug_rune r =
    if (leb b'a' r && leb r b'z')
      || ((leb b'0' r && leb r b'9') || (r == b'_' || (r == b'.' || r == b'-')))
    then r
    else b'-'

module _ (to_lower : Str → Str) where
  unfoldable pub sanitize_name : Str → Str
  sanitize_name id =
      let out = trim_right (trim_left (map slug_rune (to_lower id))) in
      if out == [] then codes "project" else out

  -- `liveSlugs` as the test that the sweep makes.
  unfoldable pub is_live : Manager → Str → Bool
  is_live m slug =
      any (λ id. sanitize_name id == slug) (keys m.workers)
      || any (λ id. sanitize_name id == slug) (keys m.inflight)

abbrev pub sidecar_prefix : Str
sidecar_prefix = codes "pcoder-preview-"

abbrev pub relay_prefix : Str
relay_prefix = codes "pcoder-preview-relay-"

unfoldable pub preview_slug : Str → Str
preview_slug name = trim_prefix (trim_prefix name sidecar_prefix) (codes "relay-")

pub record ContainerInfo : Type 0 where
  pub id : Str
  pub name : Str

-- What Docker answered for one container: the errors of `Stop` and `Remove`.
pub data SweepError : Type 0 where
  stop_orphaned : Str → Str → SweepError
  remove_orphaned : Str → Str → SweepError

unfoldable pub or_else : Option SweepError → Option SweepError → Option SweepError
or_else none e = e
or_else (some d) e = some d

module _ (to_lower : Str → Str) (stop_error remove_error : Str → Option Str) where
  unfoldable pub orphan_error : ContainerInfo → Option SweepError
  orphan_error c =
      or_else (elim (stop_error c.id) [ none ↦ none | some e ↦ some (stop_orphaned c.name e) ])
        (elim (remove_error c.id) [ none ↦ none | some e ↦ some (remove_orphaned c.name e) ])

  -- The loop of `SweepContainers`: the containers removed, and the first error.
  unfoldable pub sweep_containers :
      Manager → List ContainerInfo → List ContainerInfo × Option SweepError
  sweep_containers m [] = ([], none)
  sweep_containers m (c ∷ cs) =
      let rest = sweep_containers m cs in
      if is_live to_lower m (preview_slug c.name)
      then rest
      else (c ∷ rest.0, or_else (orphan_error c) rest.1)
