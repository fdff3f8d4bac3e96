-- ===== src/Agent/Turn/History.antt =====
-- Which turns a rebuilt conversation replays, and in which roles.
use pocket_coder.Prelude.{
  sym, Str, Bool-cases, inl, inr, ◌⊎◌, length-append, ℕ, ◌+◌, ◌-◌, ◌≤◌, ◌<◌, ◌&&◌, List, [], ◌∷◌,
  ◌++◌, ◌≡◌, refl, length, take, length-drop, take-append-drop, append_assoc, ltb, ◌∙◌, ap, nat_eq,
  list_eq, arith, if-branches,
}
use pocket_coder.Agent.Turn.{
  TurnView, HistoryOpts, keep_newest, total_size, turn_size, drop_oldest, keep_chars, kept_turns,
  entries_of, build_history,
}

-- `kept` is what is left of `turns` without some of the oldest.
abbrev pub IsNewest : List TurnView → List TurnView → Type 0
IsNewest turns kept = (dropped : List TurnView) × (dropped ++ kept ≡ turns)

keep_newest-IsNewest : (max : ℕ) (turns : List TurnView) → IsNewest turns (keep_newest max turns)
unfolding keep_newest
keep_newest-IsNewest max turns =
    if-branches (IsNewest turns) (ltb 0 max && ltb max (length turns)) _ _
      (λ many. (take (length turns - max) turns, take-append-drop (length turns - max) turns))
      (λ few. ([], refl))

length-keep_newest :
    (max : ℕ) (turns : List TurnView) → 0 < max → length (keep_newest max turns) ≤ max
unfolding keep_newest
length-keep_newest max turns h = ground (arith, length-drop (length turns - max) turns)

drop_oldest-IsNewest :
    (max total : ℕ) (turns : List TurnView) → IsNewest turns (drop_oldest max total turns)
unfolding drop_oldest
drop_oldest-IsNewest max total [] = ([], refl)
drop_oldest-IsNewest max total (t ∷ ts) =
    let rest = drop_oldest-IsNewest max (total - turn_size t) ts in
    if-branches (IsNewest (t ∷ ts)) (ltb max total) _ _
      (λ large. (t ∷ rest.0, ap (λ us. t ∷ us) rest.1)) (λ fits. ([], refl))

length-IsNewest : (turns kept : List TurnView) → IsNewest turns kept → length kept ≤ length turns
length-IsNewest turns kept (dropped, e) = ground (arith, e, shorter dropped kept)
  where
    shorter : (xs ys : List TurnView) → length ys ≤ length (xs ++ ys)
    shorter [] ys = omega arith
    shorter (x ∷ xs) ys = omega (arith, shorter xs ys)

total_size-drop_oldest :
    (max : ℕ) (turns : List TurnView) → total_size (drop_oldest max (total_size turns) turns) ≤ max
unfolding drop_oldest total_size
total_size-drop_oldest max [] = omega arith
total_size-drop_oldest max (t ∷ ts) =
    let same : turn_size t + total_size ts - turn_size t ≡ total_size ts = omega arith in
    let rest = total_size-drop_oldest max ts in ground (arith, same, rest)

keep_chars-IsNewest : (max : ℕ) (turns : List TurnView) → IsNewest turns (keep_chars max turns)
unfolding keep_chars
keep_chars-IsNewest max turns =
    if-branches (IsNewest turns) (ltb 0 max) _ _
      (λ bounded. drop_oldest-IsNewest max (total_size turns) turns) (λ free. ([], refl))

total_size-keep_chars :
    (max : ℕ) (turns : List TurnView) → 0 < max → total_size (keep_chars max turns) ≤ max
unfolding keep_chars
total_size-keep_chars max turns h = ground (arith, total_size-drop_oldest max turns)

IsNewest-trans : (a b c : List TurnView) → IsNewest a b → IsNewest b c → IsNewest a c
IsNewest-trans a b c (d, e) (d', e') = (d ++ d', append_assoc d d' c ∙ (ap (λ x. d ++ x) e' ∙ e))

-- Of two suffixes the shorter one is a suffix of the longer one.
IsNewest-shorter : (d e k n : List TurnView) → d ++ k ≡ e ++ n → length k ≤ length n → IsNewest n k
IsNewest-shorter d [] k n h le = (d, h)
IsNewest-shorter [] (y ∷ e) k n h le = absurd (
    let long = length-append {0} e n in
    let same : length k ≡ length (y ∷ (e ++ n)) = ap length h in omega arith)
IsNewest-shorter (x ∷ d) (y ∷ e) k n h le =
    let tails : d ++ k ≡ e ++ n = cc in IsNewest-shorter d e k n tails le

suffix_short : (ts d k : List TurnView) → d ++ k ≡ ts → length ts < length k → ⊥
suffix_short ts d k h longer =
    let parts = length-append {0} d k in
    let same : length (d ++ k) ≡ length ts = ap length h in omega arith

-- A suffix that is longer than what is left was too large.
drop_oldest_most :
    (max : ℕ) (ts d k : List TurnView)
    → d ++ k ≡ ts
    → length (drop_oldest max (total_size ts) ts) < length k
    → max < total_size k
unfolding drop_oldest total_size
drop_oldest_most max [] d k h longer = absurd (suffix_short [] d k h longer)
drop_oldest_most max (t ∷ ts) [] k h longer =
    elim (Bool-cases (ltb max (turn_size t + total_size ts))) [
      | inl large ↦ rw h (ground (arith, large))
      | inr fits ↦ absurd (suffix_short (t ∷ ts) [] k h (rw fits at longer))
    ]
drop_oldest_most max (t ∷ ts) (x ∷ d) k h longer =
    let same : turn_size t + total_size ts - turn_size t ≡ total_size ts = omega arith in
    elim (Bool-cases (ltb max (turn_size t + total_size ts))) [
      | inl large ↦
          let rest : length (drop_oldest max (total_size ts) ts) < length k =
            rw (large, same) at longer in
          let tails : d ++ k ≡ ts = cc in drop_oldest_most max ts d k tails rest
      | inr fits ↦ absurd (suffix_short (t ∷ ts) (x ∷ d) k h (rw fits at longer))
    ]

-- What is too large for the limits, a limit of zero being none.
abbrev pub IsOver : HistoryOpts → List TurnView → Type 0
IsOver o ts =
    ((0 < o.max_turns) × (o.max_turns < length ts))
    ⊎ ((0 < o.max_chars) × (o.max_chars < total_size ts))

keep_chars_most :
    (max : ℕ) (ts d k : List TurnView)
    → d ++ k ≡ ts
    → length (keep_chars max ts) < length k
    → (0 < max) × (max < total_size k)
unfolding keep_chars
keep_chars_most max ts d k h longer = elim (Bool-cases (ltb 0 max)) [
  | inl bounded ↦ (ground arith, drop_oldest_most max ts d k h (rw bounded at longer))
  | inr free ↦ absurd (suffix_short ts d k h (rw free at longer))
]

keep_newest_most :
    (max : ℕ) (ts d k : List TurnView)
    → d ++ k ≡ ts
    → length (keep_newest max ts) < length k
    → (0 < max) × (max < length k)
unfolding keep_newest
keep_newest_most max ts d k h longer = elim (Bool-cases (ltb 0 max && ltb max (length ts))) [
  | inl many ↦ ground (arith, many, length-drop (length ts - max) ts, longer)
  | inr few ↦ absurd (suffix_short ts d k h (rw few at longer))
]

kept_turns_most :
    (turns : List TurnView) (o : HistoryOpts) (d k : List TurnView)
    → d ++ k ≡ turns
    → length (kept_turns turns o) < length k
    → IsOver o k
unfolding kept_turns
kept_turns_most turns o d k h longer =
    let newest = keep_newest o.max_turns turns in
    elim (Bool-cases (ltb (length newest) (length k))) [
      | inl many ↦ inl (keep_newest_most o.max_turns turns d k h (ground (arith, many)))
      | inr few ↦
          let (e, whole) = keep_newest-IsNewest o.max_turns turns in
          let (x, tail) = IsNewest-shorter d e k newest (h ∙ sym whole) (ground (arith, few)) in
          inr (keep_chars_most o.max_chars newest x k tail longer)
    ]

-- The turns that a conversation is rebuilt from are the newest ones, without a gap: at most
-- `max_turns` of them, if that is not zero, and of at most `max_chars` bytes together, if that is
-- not zero.
kept_turns-bounded :
    (turns : List TurnView) (o : HistoryOpts)
    → IsNewest turns (kept_turns turns o)
      × (0 < o.max_turns → length (kept_turns turns o) ≤ o.max_turns)
      × (0 < o.max_chars → total_size (kept_turns turns o) ≤ o.max_chars)
unfolding kept_turns
kept_turns-bounded turns o =
    let newest = keep_newest o.max_turns turns in
    (
      IsNewest-trans turns newest _ (keep_newest-IsNewest o.max_turns turns)
          (keep_chars-IsNewest o.max_chars newest),
      (λ h. omega (
        arith,
        length-keep_newest o.max_turns turns h,
        length-IsNewest newest _ (keep_chars-IsNewest o.max_chars newest),
      )),
      (λ h. total_size-keep_chars o.max_chars newest h),
    )

-- A conversation is rebuilt from the entries of the newest turns, without a gap, as many of them as
-- the limits allow: at most `max_turns` turns, if that is not zero, and turns of at most `max_chars`
-- bytes together, if that is not zero; any larger number of the newest turns is over a limit.
pub build_history-bounded :
    (trim_space : Str → Str) (turns : List TurnView) (user_prompt : Str) (o : HistoryOpts)
    → (kept : List TurnView) × (build_history trim_space turns user_prompt o
        ≡ entries_of trim_space user_prompt kept)
      × IsNewest turns kept
      × (0 < o.max_turns → length kept ≤ o.max_turns)
      × (0 < o.max_chars → total_size kept ≤ o.max_chars)
      × ((d k : List TurnView) → d ++ k ≡ turns → length kept < length k → IsOver o k)
unfolding build_history
build_history-bounded trim_space turns user_prompt o =
    let (whole, few, small) = kept_turns-bounded turns o in
    (kept_turns turns o, refl, whole, few, small, kept_turns_most turns o)
