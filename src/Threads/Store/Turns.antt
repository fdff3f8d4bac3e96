-- ===== src/Threads/Store/Turns.antt =====
-- The numbering of turns: a new turn never takes the place of one that is there.
use pocket_coder.Prelude.{
  ℕ, suc, ◌≤◌, ◌<◌, true, false, ◌||◌, List, [], ◌∷◌, any, Option, none, some, ◌≡◌, ◌≢◌, refl, Str,
  length, get_last?, ltb, ◌==◌, nat_eq, list_eq, arith, Bool-cases, Option-cases, inl, inr,
}
use pocket_coder.Map.{Map, get, put}
use pocket_coder.Order.{sort, insert}
use pocket_coder.Order.Sorting.{IsSorted, sort-IsSorted}
use pocket_coder.Result.{ok}
use pocket_coder.Threads.Names.{thread_dir, valid_id}
use pocket_coder.Threads.Folders.{
  Turn, Folder, Store, turn_numbers, sorted_turn_ns, max_turn_n, placeholder, write_turn,
  put_folder, with_value, find_folder, blocks,
}
use pocket_coder.Threads.Store.{append_turn, reserve_followup}

any-insert :
    (n x : ℕ) (xs : List ℕ) → any (λ y. y == n) (insert ltb x xs) ≡ (x == n || any (λ y. y == n) xs)
unfolding insert
any-insert n x [] = refl
any-insert n x (y ∷ ys) = ground (arith, any-insert n x ys)

any-sort : (n : ℕ) (xs : List ℕ) → any (λ y. y == n) (sort ltb xs) ≡ any (λ y. y == n) xs
unfolding sort
any-sort n [] = refl
any-sort n (x ∷ xs) = ground (arith, any-insert n x (sort ltb xs), any-sort n xs)

any-turn_numbers :
    (n : ℕ) (m : Map ℕ (Option Turn)) → get n m ≢ none → any (λ y. y == n) (turn_numbers m) ≡ true
unfolding turn_numbers get
any-turn_numbers n [] h = absurd (h refl)
any-turn_numbers n ((k, t) ∷ m) h = elim (Bool-cases (k == n)) [
  | inl same ↦ ground arith
  | inr apart ↦ ground (arith, any-turn_numbers n m (rw apart at h))
]

last_or : List ℕ → ℕ
last_or xs = elim (get_last? xs) [ none ↦ 0 | some n ↦ n ]

le-last_or : (n : ℕ) (xs : List ℕ) → IsSorted ltb xs → any (λ y. y == n) xs ≡ true → n ≤ last_or xs
unfolding last_or
le-last_or n [] s h = cc
le-last_or n (x ∷ []) s h = ground arith
le-last_or n (x ∷ y ∷ ys) s h = elim (Bool-cases (x == n)) [
  | inl same ↦
      let rest : y ≤ last_or (y ∷ ys) = le-last_or y (y ∷ ys) s.1 (ground arith) in
      ground (arith, rest, s.0.0)
  | inr apart ↦ le-last_or n (y ∷ ys) s.1 (ground arith)
]

pub le-max_turn_n : (f : Folder) (n : ℕ) → get n f.turns ≢ none → n ≤ max_turn_n f
unfolding max_turn_n sorted_turn_ns last_or
le-max_turn_n f n h =
    le-last_or n (sort ltb (turn_numbers f.turns))
      (sort-IsSorted ltb (λ x y h. ground arith) (λ x y z h g. ground arith) (turn_numbers f.turns))
      (ground (arith, any-sort n (turn_numbers f.turns), any-turn_numbers n f.turns h))

-- The number after the largest one is free.
fresh-max_turn_n : (f : Folder) → get (suc (max_turn_n f)) f.turns ≡ none
fresh-max_turn_n f = elim (Option-cases (get (suc (max_turn_n f)) f.turns)) [
  | inl free ↦ free
  | inr there ↦
      let high = le-max_turn_n f (suc (max_turn_n f)) (λ z. cc (z, there.1)) in
      absurd (omega (arith, high))
]

below-max_turn_n : (f : Folder) (j : ℕ) → get j f.turns ≢ none → j < suc (max_turn_n f)
below-max_turn_n f j h = omega (arith, le-max_turn_n f j h)

-- On a thread that is there, has a turn and no pending approval, a follow-up gets the number after
-- the largest one: no turn had that number, every turn keeps its own, and the folder then holds the
-- old turns and the new placeholder.
pub reserve_followup-appends :
    (trim_space : Str → Str) (turn_id : Str) (now : ℕ) (scope id prompt sha payload : Str)
    (s : Store) (f : Folder)
    → valid_id id ≡ true
    → (trim_space prompt == []) ≡ false
    → find_folder (thread_dir scope id) s ≡ some f
    → blocks s f ≡ false
    → (length (sorted_turn_ns f) == 0) ≡ false
    → (reserve_followup trim_space none turn_id now scope id prompt sha payload s ≡ (
      ok (suc (max_turn_n f), turn_id),
      put_folder
          (thread_dir scope id)
          (record f {
            turns =
                put
                  (suc (max_turn_n f))
                  (some (placeholder turn_id sha prompt payload now))
                  f.turns;
          })
          s,
    ))
      × (get (suc (max_turn_n f)) f.turns ≡ none)
      × ((j : ℕ) → get j f.turns ≢ none → j < suc (max_turn_n f))
unfolding reserve_followup append_turn write_turn with_value
reserve_followup-appends trim_space turn_id now scope id prompt sha payload s f valid asked here
      quiet some_turn =
    (
      simp (reserve_followup, valid, asked, here, quiet, some_turn),
      fresh-max_turn_n f,
      below-max_turn_n f,
    )
