-- ===== src/Events/Tests.antt =====
-- A log with a failed write between two good ones.
use pocket_coder.Prelude.{◌≡◌, refl, [], ◌++◌, codes, false}
use pocket_coder.Result.{ok}
use pocket_coder.Events.{
  Log, whole, partial, glue, append_line, append_write, append_event, read_lines, read, last_id,
  open_log,
}
use pocket_coder.Events.Ids.{Reach, created, appended, Between, last_or, Reach-Between}
use pocket_coder.Events.Pages.{read-next_page}

abbrev one : Log
one = (append_event whole (codes "start") [] (open_log [] false)).1

abbrev torn : Log
torn = (append_event (partial (codes "disk full")) (codes "stop") [] one).1

abbrev glued : Log
glued = (append_event whole (codes "stop") [] torn).1

glued-Reach : Reach glued
glued-Reach = appended whole (codes "stop") [] (
    appended (partial (codes "disk full")) (codes "stop") []
      (appended whole (codes "start") [] created))

Reach-Between_example : Between 0 glued.id glued.lines
Reach-Between_example = Reach-Between glued-Reach

read-next_page_example :
    read 0 1 glued ++ read (last_or 0 (read 0 1 glued)) 0 glued ≡ read 0 0 glued
read-next_page_example = read-next_page glued-Reach 0 1

-- The append after the failed one reports success, but no reader ever gets its event.
lost_event :
    ((append_event whole (codes "stop") [] torn).0
      ≡ ok (record { id = 3; kind = codes "stop"; payload = [] }))
    × (read 1 0 glued ≡ [])
unfolding append_event append_write append_line glue open_log last_id read_lines read
lost_event = (refl, refl)
