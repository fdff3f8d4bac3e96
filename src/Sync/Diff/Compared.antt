-- ===== src/Sync/Diff/Compared.antt =====
-- `Compare`, the check that follows an apply, accepts exactly the trees that agree at every path.
use pocket_coder.Prelude.{
  [], ◌∷◌, Option, none, some, ◌≡◌, ◌≢◌, ◌↔◌, refl, sym, subst, ◌∙◌, Str, length, ◌==◌, ==_refl,
  list_eq, nat_eq, list_beq_iff, arith, Bool-cases, Option-cases, inl, inr,
}
use pocket_coder.Map.{Map, get}
use pocket_coder.Map.Laws.{DistinctKeys}
use pocket_coder.Map.Counting.{same_keys, length-le_of_keys}
use pocket_coder.Result.{ok}
use pocket_coder.Sync.Manifest.{Entry, Manifest, index}
use pocket_coder.Sync.Diff.{compare_entries, compare}
use pocket_coder.Sync.Diff.Pathwise.{index-DistinctKeys}
use pocket_coder.Sync.Diff.Applied.{Agrees, not-differs, differs-not}

Agrees-sym : (a b : Option Entry) → Agrees a b → Agrees b a
Agrees-sym none none h = tt
Agrees-sym (some a) (some b) h = (sym h.0, sym h.1, sym h.2)
Agrees-sym none (some b) h = absurd h
Agrees-sym (some a) none h = absurd h

Agrees-none : (a : Option Entry) → Agrees none a → a ≡ none
Agrees-none none h = refl
Agrees-none (some a) h = absurd h

-- The tree of the smaller map is found again in the other.
abbrev Within : Map Str Entry → Map Str Entry → Type 0
Within want got = (p : Str) → get p want ≢ none → Agrees (get p want) (get p got)

compare_entries-head :
    (got : Map Str Entry) (p : Str) (e : Entry) (want : Map Str Entry)
    → compare_entries got ((p, e) ∷ want) ≡ ok tt
    → Agrees (some e) (get p got) × (compare_entries got want ≡ ok tt)
unfolding compare_entries
compare_entries-head got p e want h = elim (Option-cases (get p got)) [
  | inl missing ↦ ground arith
  | inr (g, there) ↦
      rw there (Agrees-sym (some g) (some e) (not-differs g e (ground arith)), ground arith)
]

compare_entries_sound :
    (got want : Map Str Entry) → compare_entries got want ≡ ok tt → Within want got
unfolding get
compare_entries_sound got [] h p present = absurd (present refl)
compare_entries_sound got ((q, e) ∷ want) h p present =
    let r = compare_entries-head got q e want h in
    elim (Bool-cases (q == p)) [
      | inl same ↦ rw same (let q' : q ≡ p = (list_beq_iff q p).0 same in rw (← q') (r.0))
      | inr apart ↦ rw apart (compare_entries_sound got want r.1 p (rw apart at present))
    ]

Within-keys :
    (want got : Map Str Entry) → Within want got → (p : Str) → get p want ≢ none → get p got ≢ none
Within-keys want got h p present gone =
    present (Agrees-none (get p want) (Agrees-sym (get p want) none (rw gone at (h p present))))

compare_entries-cons :
    (got : Map Str Entry) (p : Str) (e : Entry) (want : Map Str Entry)
    → Agrees (some e) (get p got)
    → compare_entries got want ≡ ok tt
    → compare_entries got ((p, e) ∷ want) ≡ ok tt
unfolding compare_entries
compare_entries-cons got p e want h rest = elim (Option-cases (get p got)) [
  | inl missing ↦ absurd (rw missing at h)
  | inr (g, there) ↦ ground (arith, differs-not g e (Agrees-sym (some e) (some g) (rw there at h)))
]

get-head : (p : Str) (e : Entry) (m : Map Str Entry) → get p ((p, e) ∷ m) ≡ some e
unfolding get
get-head p e m = ground (arith, ==_refl p)

get-tail :
    (p : Str) (e : Entry) (m : Map Str Entry) (q : Str)
    → get p m ≡ none
    → get q m ≢ none
    → get q ((p, e) ∷ m) ≡ get q m
unfolding get
get-tail p e m q gone present = elim (Bool-cases (p == q)) [
  | inl same ↦ absurd (present (let s : p ≡ q = (list_beq_iff p q).0 same in rw (← s) gone))
  | inr apart ↦ rw apart
]

Within-head :
    (p : Str) (e : Entry) (want got : Map Str Entry)
    → Within ((p, e) ∷ want) got
    → Agrees (some e) (get p got)
Within-head p e want got h =
    subst (λ (o : Option Entry). Agrees o (get p got)) (get-head p e want)
      (h p (λ z. cc (get-head p e want, z)))

Within-tail :
    (p : Str) (e : Entry) (want got : Map Str Entry)
    → get p want ≡ none
    → Within ((p, e) ∷ want) got
    → Within want got
Within-tail p e want got gone h q present =
    subst (λ (o : Option Entry). Agrees o (get q got)) (get-tail p e want q gone present)
      (h q (λ z. present (sym (get-tail p e want q gone present) ∙ z)))

compare_entries_complete :
    (got want : Map Str Entry)
    → DistinctKeys want
    → Within want got
    → compare_entries got want ≡ ok tt
unfolding compare_entries
compare_entries_complete got [] d h = refl
compare_entries_complete got ((p, e) ∷ want) d h =
    compare_entries-cons got p e want (Within-head p e want got h)
      (compare_entries_complete got want d.1 (Within-tail p e want got d.0 h))

compare-parts :
    (want got : Manifest)
    → compare want got ≡ ok tt
    → (length (index want) ≡ length (index got))
      × (compare_entries (index got) (index want) ≡ ok tt)
unfolding compare
compare-parts want got h = ground arith

compare-join :
    (want got : Manifest)
    → length (index want) ≡ length (index got)
    → compare_entries (index got) (index want) ≡ ok tt
    → compare want got ≡ ok tt
unfolding compare
compare-join want got h k = ground arith

compare_sound :
    (want got : Manifest)
    → compare want got ≡ ok tt
    → (p : Str) → Agrees (get p (index want)) (get p (index got))
compare_sound want got h p =
    let r = compare-parts want got h in
    let within = compare_entries_sound (index got) (index want) r.1 in
    elim (Option-cases (get p (index want))) [
      | inl gone ↦ rw gone (
          rw
            (same_keys (index want) (index got) p (index-DistinctKeys want) (index-DistinctKeys got)
              (Within-keys (index want) (index got) within) (omega arith) gone)
            tt)
      | inr (e, there) ↦ within p (λ z. cc (there, z))
    ]

compare_complete :
    (want got : Manifest)
    → ((p : Str) → Agrees (get p (index want)) (get p (index got)))
    → compare want got ≡ ok tt
compare_complete want got h =
    let forth : Within (index want) (index got) = λ p present. h p in
    let back : Within (index got) (index want) =
      λ p present. Agrees-sym (get p (index want)) (get p (index got)) (h p) in
    let dw = index-DistinctKeys want in
    let dg = index-DistinctKeys got in
    compare-join want got
      (omega (
        arith,
        length-le_of_keys (index want) (index got) dw dg
            (Within-keys (index want) (index got) forth),
        length-le_of_keys (index got) (index want) dg dw
            (Within-keys (index got) (index want) back),
      ))
      (compare_entries_complete (index got) (index want) dw forth)

-- `Compare` accepts two manifests exactly when they agree at every path: nothing is missing,
-- nothing differs in hash, mode or type, and nothing is left over.
pub compare_iff :
    (want got : Manifest)
    → (compare want got ≡ ok tt) ↔ ((p : Str) → Agrees (get p (index want)) (get p (index got)))
compare_iff want got = (compare_sound want got, compare_complete want got)
