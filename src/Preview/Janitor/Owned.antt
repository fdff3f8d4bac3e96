-- ===== src/Preview/Janitor/Owned.antt =====
-- The janitor never removes a container that a live worker, or a start under way, owns.
use pocket_coder.Prelude.{
  true, false, List, [], ◌∷◌, ◌++◌, Option, ◌≡◌, ◌≢◌, Str, codes, any, All, ◌⊎◌, inl, inr, ◌==◌,
  ==_refl, nat_eq, list_eq, list_beq_iff, has_prefix, trim_prefix-other, trim_prefix-append, arith,
  Bool-cases, ap,
}
use pocket_coder.Map.{Map, get, has}
use pocket_coder.Preview.Manager.{Manager, keys}
use pocket_coder.Preview.Janitor.{
  sanitize_name, is_live, sidecar_prefix, relay_prefix, preview_slug, ContainerInfo,
  sweep_containers,
}

any-live :
    {V : Type 0}
    → (to_lower : Str → Str) (id : Str) (m : Map Str V) → has id m ≡ true
    → any (λ k. sanitize_name to_lower k == sanitize_name to_lower id) (keys m) ≡ true
unfolding keys get
any-live to_lower id [] h = cc
any-live to_lower id ((k, v) ∷ m) h = elim (Bool-cases (k == id)) [
  | inl same ↦ ground (arith, list_beq_iff k id, ==_refl (sanitize_name to_lower id))
  | inr apart ↦ ground (arith, any-live to_lower id m)
]

-- The project has a worker, or is about to.
abbrev pub IsOwned : Manager → Str → Type 0
IsOwned m id = (has id m.workers ≡ true) ⊎ (has id m.inflight ≡ true)

is_live-sanitize_name :
    (to_lower : Str → Str) (m : Manager) (id : Str)
    → IsOwned m id
    → is_live to_lower m (sanitize_name to_lower id) ≡ true
unfolding is_live
is_live-sanitize_name to_lower m id (inl h) = ground (arith, any-live to_lower id m.workers h)
is_live-sanitize_name to_lower m id (inr h) = ground (arith, any-live to_lower id m.inflight h)

preview_slug-sidecar :
    (slug : Str)
    → has_prefix slug (codes "relay-") ≡ false
    → preview_slug (sidecar_prefix ++ slug) ≡ slug
unfolding preview_slug
preview_slug-sidecar slug h =
    rw (trim_prefix-append sidecar_prefix slug) (trim_prefix-other slug (codes "relay-") h)

preview_slug-relay : (slug : Str) → preview_slug (relay_prefix ++ slug) ≡ slug
unfolding preview_slug
preview_slug-relay slug =
    rw (trim_prefix-append sidecar_prefix (codes "relay-" ++ slug))
      (trim_prefix-append (codes "relay-") slug)

module _ (to_lower : Str → Str) (stop_error remove_error : Str → Option Str) where
  -- A container whose slug is live is not among the removed.
  removed-dead :
      (m : Manager) (cs : List ContainerInfo)
      → All
          (λ c. is_live to_lower m (preview_slug c.name) ≡ false)
          (sweep_containers to_lower stop_error remove_error m cs).0
  unfolding sweep_containers
  removed-dead m [] = tt
  removed-dead m (c ∷ cs) = elim (Bool-cases (is_live to_lower m (preview_slug c.name))) [
    | inl live ↦ rw live (removed-dead m cs)
    | inr dead ↦ rw dead (dead, removed-dead m cs)
  ]

  dead-apart :
      (m : Manager) (id : Str) (cs : List ContainerInfo)
      → IsOwned m id
      → has_prefix (sanitize_name to_lower id) (codes "relay-") ≡ false
      → All (λ c. is_live to_lower m (preview_slug c.name) ≡ false) cs
      → All
          (λ c.
            (c.name ≢ sidecar_prefix ++ sanitize_name to_lower id)
            × (c.name ≢ relay_prefix ++ sanitize_name to_lower id))
          cs
  dead-apart m id [] o plain h = tt
  dead-apart m id (c ∷ cs) o plain h =
      let slug = sanitize_name to_lower id in
      let live = is_live-sanitize_name to_lower m id o in
      (
        (
          (λ z. cc (h.0, live, ap preview_slug z, preview_slug-sidecar slug plain)),
          (λ z. cc (h.0, live, ap preview_slug z, preview_slug-relay slug)),
        ),
        dead-apart m id cs o plain h.1,
      )

  -- A sweep removes neither the sidecar nor the relay of a project that has a worker or a start
  -- under way, unless the project's slug begins with "relay-".
  pub sweep_containers_spares :
      (m : Manager) (id : Str) (cs : List ContainerInfo)
      → IsOwned m id
      → has_prefix (sanitize_name to_lower id) (codes "relay-") ≡ false
      → All
          (λ c.
            (c.name ≢ sidecar_prefix ++ sanitize_name to_lower id)
            × (c.name ≢ relay_prefix ++ sanitize_name to_lower id))
          (sweep_containers to_lower stop_error remove_error m cs).0
  sweep_containers_spares m id cs o plain = dead-apart m id _ o plain (removed-dead m cs)
