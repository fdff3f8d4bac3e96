-- ===== src/Events.antt =====
-- server/internal/events/events.go: the append-only log of events. The file is its lines, an event
-- where the line parses; a write that failed midway leaves an unfinished line at the end, and the
-- text written next goes on the same line, which then does not parse. The clock is left out with the event's
-- time, and the event's data is opaque.
pub mod Ids
pub mod Pages
mod Tests
use pocket_coder.Prelude.{
  ℕ, suc, Bool, true, false, ◌&&◌, List, [], ◌∷◌, ◌++◌, Option, none, some, Str, get_last?, ltb,
  leb, if◌then◌else◌,
}
use pocket_coder.Result.{Result, ok, err}

pub record Event : Type 0 where
  pub id : ℕ
  pub kind : Str
  pub payload : Str

pub record Log : Type 0 where
  pub lines : List (Option Event)
  pub unfinished : Bool
  pub id : ℕ

-- How a write ends: in full, with an error once all but the newline is written, with an error
-- midway, or with an error before the first byte.
pub data Write : Type 0 where
  whole : Write
  unended : Str → Write
  partial : Str → Write
  nothing : Str → Write

-- The last line, continued by the text of another, does not parse.
unfoldable pub glue : List (Option Event) → List (Option Event)
glue [] = none ∷ []
glue (x ∷ []) = none ∷ []
glue (x ∷ y ∷ lines) = x ∷ glue (y ∷ lines)

unfoldable pub append_line : Bool → Option Event → List (Option Event) → List (Option Event)
append_line unfinished x lines = if unfinished then glue lines else lines ++ x ∷ []

unfoldable pub append_write : Write → Event → Log → Result Str Event × Log
append_write whole e l =
    (ok e, record l { lines = append_line l.unfinished (some e) l.lines; unfinished = false })
append_write (unended error) e l =
    (err error, record l { lines = append_line l.unfinished (some e) l.lines; unfinished = true })
append_write (partial error) e l =
    (err error, record l { lines = append_line l.unfinished none l.lines; unfinished = true })
append_write (nothing error) e l = (err error, l)

-- `Append`; the id counts up even if the write fails.
unfoldable pub append_event : Write → Str → Str → Log → Result Str Event × Log
append_event write kind payload l =
    append_write write (record { id = suc l.id; kind = kind; payload = payload })
      (record l { id = suc l.id })

-- The loop of `Read`, `n` being the number of events collected so far.
unfoldable pub read_lines : ℕ → ℕ → ℕ → List (Option Event) → List Event
read_lines after limit n [] = []
read_lines after limit n (none ∷ lines) = read_lines after limit n lines
read_lines after limit n (some e ∷ lines) =
    let skipped = read_lines after limit n lines in
    let rest = read_lines after limit (suc n) lines in
    if leb e.id after
    then skipped
    else if ltb 0 limit && leb limit (suc n)
    then e ∷ []
    else e ∷ rest

-- A limit of 0 is no limit.
unfoldable pub read : ℕ → ℕ → Log → List Event
read after limit l = read_lines after limit 0 l.lines

unfoldable pub last_id : List (Option Event) → ℕ
last_id lines = elim (get_last? (read_lines 0 0 0 lines)) [ none ↦ 0 | some e ↦ e.id ]

-- `Open` on a file that may end in an unfinished line.
unfoldable pub open_log : List (Option Event) → Bool → Log
open_log lines unfinished = record { lines = lines; unfinished = unfinished; id = last_id lines }

-- What the two system calls of `Reset` return.
pub data Cleared : Type 0 where
  cleared : Cleared
  not_truncated not_synced : Str → Cleared

-- A file that was truncated and not synced is empty, while the ids go on.
unfoldable pub reset : Cleared → Log → Result Str (Unit {0}) × Log
reset cleared l = (ok tt, record { lines = []; unfinished = false; id = 0 })
reset (not_truncated error) l = (err error, l)
reset (not_synced error) l = (err error, record l { lines = []; unfinished = false })
