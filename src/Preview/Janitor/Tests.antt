-- ===== src/Preview/Janitor/Tests.antt =====
-- The janitor on one project's containers, and on a project whose slug begins with "relay-".
use pocket_coder.Prelude.{
  List, [], ◌∷◌, ◌++◌, Option, none, ◌≡◌, ◌≢◌, refl, Str, codes, All, inl, has_prefix, trim_prefix,
  list_beq,
}
use pocket_coder.Map.{get}
use pocket_coder.Preview.Manager.{Manager, new_manager, keys}
use pocket_coder.Preview.Janitor.{
  sanitize_name, is_live, sidecar_prefix, relay_prefix, preview_slug, ContainerInfo,
  sweep_containers, orphan_error, or_else, trim_left, trim_right, is_trimmed, slug_rune,
}
use pocket_coder.Preview.Janitor.Owned.{sweep_containers_spares}

abbrev lower : Str → Str
lower s = s

abbrev quiet : Str → Option Str
quiet id = none

abbrev with_worker : Str → Manager
with_worker id = record new_manager { workers = (id, 7) ∷ [] }

abbrev sidecars : List ContainerInfo
sidecars =
    record { id = codes "1"; name = codes "pcoder-preview-a-b" }
    ∷ record { id = codes "2"; name = codes "pcoder-preview-old" }
    ∷ []

sweep_containers_spares_example :
    All
      (λ c.
        (c.name ≢ sidecar_prefix ++ sanitize_name lower (codes "a/b"))
        × (c.name ≢ relay_prefix ++ sanitize_name lower (codes "a/b")))
      (sweep_containers lower quiet quiet (with_worker (codes "a/b")) sidecars).0
unfolding get new_manager list_beq sanitize_name trim_left trim_right is_trimmed slug_rune
    has_prefix
sweep_containers_spares_example =
    sweep_containers_spares lower quiet quiet (with_worker (codes "a/b")) (codes "a/b") sidecars
      (inl refl) refl

-- A live project named "relay-x" loses its sidecar.
abbrev relay_sidecar : ContainerInfo
relay_sidecar = record { id = codes "3"; name = codes "pcoder-preview-relay-x" }

relay_project_swept :
    sweep_containers lower quiet quiet (with_worker (codes "relay-x")) (relay_sidecar ∷ [])
    ≡ (relay_sidecar ∷ [], none)
unfolding get new_manager list_beq sanitize_name trim_left trim_right is_trimmed slug_rune
    has_prefix sweep_containers is_live keys preview_slug trim_prefix orphan_error or_else
relay_project_swept = refl
