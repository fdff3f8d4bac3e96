-- ===== src/Events/Pages.antt =====
-- Reading the log page by page gives every event once.
use pocket_coder.Prelude.{
  ℕ, suc, ◌≤◌, true, false, ◌&&◌, List, [], ◌∷◌, ◌++◌, Option, none, some, ◌≡◌, refl, sym, ap, ◌∙◌,
  ltb, leb, arith, Bool-cases, inl, inr,
}
use pocket_coder.Events.{Event, Log, read_lines, read}
use pocket_coder.Events.Ids.{Between, last_or, last_or-cons, Reach, Reach-Between}

-- Below the ids of the file it does not matter where the reading starts.
read_lines-below :
    (after k limit n lo hi : ℕ) (lines : List (Option Event))
    → after ≤ lo
    → k ≤ lo
    → Between lo hi lines
    → read_lines after limit n lines ≡ read_lines k limit n lines
unfolding read_lines
read_lines-below after k limit n lo hi [] ha hk b = refl
read_lines-below after k limit n lo hi (none ∷ lines) ha hk b =
    read_lines-below after k limit n lo hi lines ha hk b
read_lines-below after k limit n lo hi (some e ∷ lines) ha hk b = ground (
  arith,
  b.0,
  read_lines-below after k limit (suc n) e.id hi lines (omega (arith, b.0)) (omega (arith, b.0))
      b.1,
)

-- Without a limit the number collected so far does not matter.
read_lines-unlimited :
    (after n m : ℕ) (lines : List (Option Event))
    → read_lines after 0 n lines ≡ read_lines after 0 m lines
unfolding read_lines
read_lines-unlimited after n m [] = refl
read_lines-unlimited after n m (none ∷ lines) = read_lines-unlimited after n m lines
read_lines-unlimited after n m (some e ∷ lines) =
    ground (
      arith,
      read_lines-unlimited after n m lines,
      read_lines-unlimited after (suc n) (suc m) lines,
    )

le-last_or :
    (after d limit n : ℕ) (lines : List (Option Event))
    → after ≤ d
    → after ≤ last_or d (read_lines after limit n lines)
unfolding read_lines
le-last_or after d limit n [] h = h
le-last_or after d limit n (none ∷ lines) h = le-last_or after d limit n lines h
le-last_or after d limit n (some e ∷ lines) h = elim (Bool-cases (leb e.id after)) [
  | inl old ↦ rw old (le-last_or after d limit n lines h)
  | inr new ↦ elim (Bool-cases (ltb 0 limit && leb limit (suc n))) [
    | inl stop ↦ rw (new, stop) (ground arith)
    | inr more ↦
        rw (new, more, last_or-cons d e (read_lines after limit (suc n) lines))
          (le-last_or after e.id limit (suc n) lines (ground arith))
  ]
]

-- Reading on after a page that ended at `e`.
read_on :
    (e : Event) (k : ℕ) (lines : List (Option Event))
    → e.id ≤ k
    → read_lines k 0 0 (some e ∷ lines) ≡ read_lines k 0 0 lines
unfolding read_lines
read_on e k lines h = ground arith

read_old :
    (after limit n : ℕ) (e : Event) (lines : List (Option Event))
    → leb e.id after ≡ true
    → read_lines after limit n (some e ∷ lines) ≡ read_lines after limit n lines
unfolding read_lines
read_old after limit n e lines h = rw h refl

read_stop :
    (after limit n : ℕ) (e : Event) (lines : List (Option Event))
    → leb e.id after ≡ false
    → (ltb 0 limit && leb limit (suc n)) ≡ true
    → read_lines after limit n (some e ∷ lines) ≡ e ∷ []
unfolding read_lines
read_stop after limit n e lines h stop = rw (h, stop) refl

read_more :
    (after limit n : ℕ) (e : Event) (lines : List (Option Event))
    → leb e.id after ≡ false
    → (ltb 0 limit && leb limit (suc n)) ≡ false
    → read_lines after limit n (some e ∷ lines) ≡ e ∷ read_lines after limit (suc n) lines
unfolding read_lines
read_more after limit n e lines h more = rw (h, more) refl

read_none :
    (after limit n : ℕ) (lines : List (Option Event))
    → read_lines after limit n (none ∷ lines) ≡ read_lines after limit n lines
unfolding read_lines
read_none after limit n lines = refl

read_nil : (after limit n : ℕ) → read_lines after limit n [] ≡ []
unfolding read_lines
read_nil after limit n = refl

-- The rest of a page that took `e` first, once the reading is known to start at `e`.
page_tail :
    (after limit n hi : ℕ) (e : Event) (lines : List (Option Event))
    → leb e.id after ≡ false
    → Between e.id hi lines
    → read_lines after limit n lines ≡ read_lines e.id limit n lines
page_tail after limit n hi e lines new b =
    read_lines-below after e.id limit n e.id hi lines (ground arith) (omega arith) b

page_then_rest :
    (after limit n lo hi : ℕ) (lines : List (Option Event))
    → Between lo hi lines
    → read_lines after limit n lines
        ++ read_lines (last_or after (read_lines after limit n lines)) 0 0 lines
      ≡ read_lines after 0 0 lines
page_then_rest after limit n lo hi [] b = rw (read_nil after limit n, read_nil after 0 0) refl
page_then_rest after limit n lo hi (none ∷ lines) b =
    rw
      (
        read_none after limit n lines,
        read_none after 0 0 lines,
        read_none (last_or after (read_lines after limit n lines)) 0 0 lines,
      )
      (page_then_rest after limit n lo hi lines b)
page_then_rest after limit n lo hi (some e ∷ lines) b = elim (Bool-cases (leb e.id after)) [
  | inl old ↦
      let page = read_lines after limit n lines in
      let far = le-last_or after after limit n lines (omega arith) in
      let skip = read_on e (last_or after page) lines (ground (arith, far)) in
      rw (read_old after limit n e lines old, read_old after 0 0 e lines old)
        (ap (λ es. page ++ es) skip ∙ page_then_rest after limit n e.id hi lines b.1)
  | inr new ↦
      let rest : read_lines e.id 0 0 lines ≡ read_lines after 0 1 lines =
        read_lines-unlimited e.id 0 1 lines ∙ sym (page_tail after 0 1 hi e lines new b.1) in
      let all_of : read_lines after 0 0 (some e ∷ lines) ≡ e ∷ read_lines after 0 1 lines =
        read_more after 0 0 e lines new (ground arith) in
      elim (Bool-cases (ltb 0 limit && leb limit (suc n))) [
        | inl stop ↦
            rw (read_stop after limit n e lines new stop, all_of)
              (ap (λ es. e ∷ es) (read_on e e.id lines (omega arith) ∙ rest))
        | inr more ↦
            let page = read_lines e.id limit (suc n) lines in
            let far = le-last_or e.id e.id limit (suc n) lines (omega arith) in
            rw
              (
                read_more after limit n e lines new more,
                page_tail after limit (suc n) hi e lines new b.1,
                all_of,
                last_or-cons after e page,
              )
              (ap (λ es. e ∷ es)
                (ap (λ es. page ++ es) (read_on e (last_or e.id page) lines far)
                  ∙ (page_then_rest e.id limit (suc n) e.id hi lines b.1 ∙ rest)))
      ]
]

-- In every reachable log, a page from `after` on, however long the limit makes it, followed by all
-- that comes after the page's last event, is all that comes after `after`: paging by the last id
-- seen neither skips nor repeats an event.
pub read-next_page :
    {l : Log}
    → Reach l
    → (after limit : ℕ)
    → read after limit l ++ read (last_or after (read after limit l)) 0 l ≡ read after 0 l
unfolding read
read-next_page {l} r after limit = page_then_rest after limit 0 0 l.id l.lines (Reach-Between r)
