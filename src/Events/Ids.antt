-- ===== src/Events/Ids.antt =====
-- The ids in the file ascend, whatever writes fail and however often the log is opened again.
use pocket_coder.Prelude.{
  ℕ, suc, ◌≤◌, ◌<◌, Bool, true, false, List, [], ◌∷◌, ◌++◌, Option, none, some, ◌≡◌, refl, Str,
  get_last?, leb, arith,
}
use pocket_coder.Events.{
  Event, Log, Write, whole, unended, partial, nothing, Cleared, cleared, not_truncated, not_synced,
  glue, append_line, append_write, append_event, read_lines, last_id, open_log, reset,
}

-- The ids of the lines that parse ascend strictly from above `lo`, and are at most `hi`.
abbrev pub Between : ℕ → ℕ → List (Option Event) → Type 0
Between lo hi [] = lo ≤ hi
Between lo hi (none ∷ lines) = Between lo hi lines
Between lo hi (some e ∷ lines) = (lo < e.id) × Between e.id hi lines

Between-le :
    (lo hi hi' : ℕ) (lines : List (Option Event))
    → hi ≤ hi'
    → Between lo hi lines
    → Between lo hi' lines
Between-le lo hi hi' [] h b = omega arith
Between-le lo hi hi' (none ∷ lines) h b = Between-le lo hi hi' lines h b
Between-le lo hi hi' (some e ∷ lines) h b = (b.0, Between-le e.id hi hi' lines h b.1)

Between-torn :
    (lo hi : ℕ) (lines : List (Option Event))
    → Between lo hi lines
    → Between lo hi (lines ++ none ∷ [])
Between-torn lo hi [] b = b
Between-torn lo hi (none ∷ lines) b = Between-torn lo hi lines b
Between-torn lo hi (some e ∷ lines) b = (b.0, Between-torn e.id hi lines b.1)

Between-glue :
    (lo hi : ℕ) (lines : List (Option Event)) → Between lo hi lines → Between lo hi (glue lines)
unfolding glue
Between-glue lo hi [] b = b
Between-glue lo hi (none ∷ []) b = b
Between-glue lo hi (some e ∷ []) b = omega (arith, b.0, b.1)
Between-glue lo hi (none ∷ y ∷ lines) b = Between-glue lo hi (y ∷ lines) b
Between-glue lo hi (some e ∷ y ∷ lines) b = (b.0, Between-glue e.id hi (y ∷ lines) b.1)

Between-append :
    (lo hi : ℕ) (e : Event) (lines : List (Option Event))
    → hi < e.id
    → Between lo hi lines
    → Between lo e.id (lines ++ some e ∷ [])
Between-append lo hi e [] h b = (omega arith, omega arith)
Between-append lo hi e (none ∷ lines) h b = Between-append lo hi e lines h b
Between-append lo hi e (some d ∷ lines) h b = (b.0, Between-append d.id hi e lines h b.1)

abbrev pub last_or : ℕ → List Event → ℕ
last_or d es = elim (get_last? es) [ none ↦ d | some e ↦ e.id ]

pub last_or-cons : (d : ℕ) (e : Event) (es : List Event) → last_or d (e ∷ es) ≡ last_or e.id es
last_or-cons d e [] = refl
last_or-cons d e (x ∷ []) = refl
last_or-cons d e (x ∷ y ∷ es) =
    ground (arith, last_or-cons d x (y ∷ es), last_or-cons e.id x (y ∷ es))

-- Reading everything from above `after` ends at an id that bounds the file's.
Between-last :
    (after lo hi n : ℕ) (lines : List (Option Event))
    → after ≤ lo
    → Between lo hi lines
    → Between lo (last_or lo (read_lines after 0 n lines)) lines
unfolding read_lines
Between-last after lo hi n [] h b = omega arith
Between-last after lo hi n (none ∷ lines) h b = Between-last after lo hi n lines h b
Between-last after lo hi n (some e ∷ lines) h b =
    let ih = Between-last after e.id hi (suc n) lines (omega (arith, b.0)) b.1 in
    (b.0, rw (above, last_or-cons lo e (read_lines after 0 (suc n) lines)) ih)
  where
    above : leb e.id after ≡ false
    above = ground (arith, b.0)

pub data Reach : Log → Type 0 where
  created : Reach (open_log [] false)
  appended :
      {l : Log} (write : Write) (kind payload : Str)
      → Reach l
      → Reach (append_event write kind payload l).1
  reopened : {l : Log} → Reach l → Reach (open_log l.lines l.unfinished)
  emptied : {l : Log} (c : Cleared) → Reach l → Reach (reset c l).1

append_line-event :
    (unfinished : Bool) (hi : ℕ) (e : Event) (lines : List (Option Event))
    → hi < e.id
    → Between 0 hi lines
    → Between 0 e.id (append_line unfinished (some e) lines)
unfolding append_line
append_line-event true hi e lines h b =
    Between-glue 0 e.id lines (Between-le 0 hi e.id lines (omega arith) b)
append_line-event false hi e lines h b = Between-append 0 hi e lines h b

append_line-torn :
    (unfinished : Bool) (hi : ℕ) (lines : List (Option Event))
    → Between 0 hi lines
    → Between 0 hi (append_line unfinished none lines)
unfolding append_line
append_line-torn true hi lines b = Between-glue 0 hi lines b
append_line-torn false hi lines b = Between-torn 0 hi lines b

append_event-Between :
    (write : Write) (kind payload : Str) (l : Log)
    → Between 0 l.id l.lines
    → Between 0 (append_event write kind payload l).1.id (append_event write kind payload l).1.lines
unfolding append_event append_write
append_event-Between whole kind payload l b =
    append_line-event l.unfinished l.id _ l.lines (omega arith) b
append_event-Between (unended e) kind payload l b =
    append_line-event l.unfinished l.id _ l.lines (omega arith) b
append_event-Between (partial e) kind payload l b =
    append_line-torn l.unfinished (suc l.id) l.lines
      (Between-le 0 l.id (suc l.id) l.lines (omega arith) b)
append_event-Between (nothing e) kind payload l b =
    Between-le 0 l.id (suc l.id) l.lines (omega arith) b

-- In the file of every log that appends, failed writes, restarts and resets reach, the ids of the
-- lines that parse ascend strictly from 1 up and none is above the log's own id, so the next event
-- gets an id that no line has.
pub Reach-Between : {l : Log} → Reach l → Between 0 l.id l.lines
unfolding open_log last_id reset read_lines
Reach-Between created = omega arith
Reach-Between (appended {l} write kind payload r) =
    append_event-Between write kind payload l (Reach-Between r)
Reach-Between (reopened {l} r) = Between-last 0 0 l.id 0 l.lines (omega arith) (Reach-Between r)
Reach-Between (emptied cleared r) = omega arith
Reach-Between (emptied (not_truncated e) r) = Reach-Between r
Reach-Between (emptied (not_synced e) r) = omega arith
