-- ===== src/Harness/Builtins.antt =====
-- The builtin harnesses are added without touching what the user has.
use pocket_coder.Prelude.{
  false, ◌==◌, if◌then◌else◌, Bool, List, [], ◌∷◌, Option, none, some, ◌≡◌, refl, sym, ap, ◌∙◌, Str,
  nat_eq, list_eq, list_beq_iff, if◌then◌else◌, arith, Bool-cases, Option-cases, inl, inr,
}
use pocket_coder.Map.{Map, get, put, has}
use pocket_coder.Map.Laws.{get-put}
use pocket_coder.Result.{Result, ok}
use pocket_coder.State.{
  some_map, Document, Harness, StateStore, Json, Written, normalize_document, deepcopy,
}
use pocket_coder.State.Mutated.{IsMutated, is_saved, is_unchanged, mutate-IsMutated}
use pocket_coder.Harness.{slug, registry, builtins, add_builtins, ensure_builtins}

some_map-registry :
    (o : Option (Map Str Harness))
    → (elim (some_map o) as (λ _. Map Str Harness) [ none ↦ [] | some m ↦ m ])
      ≡ (elim o as (λ _. Map Str Harness) [ none ↦ [] | some m ↦ m ])
some_map-registry none = refl
some_map-registry (some m) = refl

registry-normalize_document : (d : Document) → registry (normalize_document d) ≡ registry d
unfolding registry normalize_document
registry-normalize_document d = some_map-registry d.harnesses

module _ (lower trim : Str → Str) where
  -- The first builtin that has an id for its slug.
  unfoldable pub first_builtin : Str → List Harness → Option Harness
  first_builtin k [] = none
  first_builtin k (b ∷ bs) =
      let rest = first_builtin k bs in
      if slug lower trim b.name == k then some (record b { id = slug lower trim b.name }) else rest

  -- What an id stands for: what it stood for, or a builtin.
  unfoldable pub or_builtin : Str → Option Harness → List Harness → Option Harness
  or_builtin k (some h) bs = some h
  or_builtin k none bs = first_builtin k bs

  get-add_builtins :
      (bs : List Harness) (m : Map Str Harness) (k : Str)
      → get k (add_builtins lower trim bs m) ≡ or_builtin k (get k m) bs
  unfolding add_builtins first_builtin or_builtin
  get-add_builtins [] m k = elim (Option-cases (get k m)) [
    | inl gone ↦ rw gone refl
    | inr (h, there) ↦ rw there refl
  ]
  get-add_builtins (b ∷ bs) m k =
      let id = slug lower trim b.name in
      get-add_builtins bs (if has id m then m else put id (record b { id = id }) m) k
      ∙ elim (Option-cases (get k m)) [
        | inl gone ↦ elim (Bool-cases (id == k)) [
          | inl same ↦
              let e : id ≡ k = (list_beq_iff id k).0 same in
              let new : has id m ≡ false = rw e (ground (arith, gone)) in
              let at : get k (put id (record b { id = id }) m) ≡ some (record b { id = id }) =
                ground (arith, get-put id k (record b { id = id }) m, same) in
              rw (new, at, gone, same) refl
          | inr apart ↦ elim (Bool-cases (has id m)) [
            | inl old ↦ rw (old, gone, apart) refl
            | inr new ↦
                let at : get k (put id (record b { id = id }) m) ≡ none =
                  ground (arith, get-put id k (record b { id = id }) m, apart, gone) in
                rw (new, at, gone, apart) refl
          ]
        ]
        | inr (h, there) ↦
            let kept : get k (if has id m then m else put id (record b { id = id }) m) ≡ some h =
              elim (Bool-cases (has id m)) [
                | inl old ↦ rw old there
                | inr new ↦
                    rw new
                      (ground (arith, get-put id k (record b { id = id }) m, list_beq_iff id k))
              ] in
            rw (kept, there) refl
      ]

  -- Seeding the registry overwrites nothing and adds the builtins as they are: where it succeeds, an
  -- id that the copied document had stands for the same harness, edited or not, an id that it had not
  -- stands for the first builtin with that slug, with its name, command and install, and no other
  -- harness was added.
  pub ensure_builtins-keeps :
      (json : Json) (wrote : Written) (renamed : Bool) (s : StateStore) (copy : Document)
      → deepcopy json s.doc ≡ ok copy
      → (ensure_builtins lower trim json wrote renamed s).0 ≡ ok tt
      → (k : Str)
      → get k (registry (ensure_builtins lower trim json wrote renamed s).1.doc)
        ≡ or_builtin k (get k (registry copy)) builtins
  unfolding ensure_builtins registry
  ensure_builtins-keeps json wrote renamed s copy copied done k =
      kept (ensure_builtins lower trim json wrote renamed s)
        (mutate-IsMutated json added s wrote renamed) done
    where
      added : Document → Result Str Document
      added doc =
          ok (record doc { harnesses = some (add_builtins lower trim builtins (registry doc)) })

      kept :
          (r : Result Str (Unit {0}) × StateStore)
          → IsMutated json added s r
          → r.0 ≡ ok tt
          → get k (registry r.1.doc) ≡ or_builtin k (get k (registry copy)) builtins
      kept _ (is_unchanged e s' d f) h = cc
      kept _ (is_saved c doc raw q made m) h =
          let is_copy : c ≡ copy = cc in
          let is : record (normalize_document c) {
            harnesses = some (add_builtins lower trim builtins (registry (normalize_document c)));
          }
              ≡ doc =
            cc in
          let e : registry doc ≡ add_builtins lower trim builtins (registry copy) =
            ap registry (sym is)
            ∙ ap (add_builtins lower trim builtins)
                (registry-normalize_document c ∙ ap registry is_copy) in
          rw e (get-add_builtins builtins (registry copy) k)
