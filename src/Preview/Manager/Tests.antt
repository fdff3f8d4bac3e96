-- ===== src/Preview/Manager/Tests.antt =====
-- The preview manager on a small run: the theorems applied, and the run's results.
use pocket_coder.Prelude.{
  true, false, ◌&&◌, not, [], ◌∷◌, ◌+◌, Option, none, some, ◌≡◌, refl, Str, codes, All, ltb, nat_eq,
  list_eq, list_beq,
}
use pocket_coder.Map.{get, put, del, has}
use pocket_coder.Result.{Result, ok, err}
use pocket_coder.Preview.Manager.{
  Manager, Worker, PreviewError, Config, new_manager, begin_ensure, end_ensure, close_manager,
  closed_manager, sweep, check_token, await, refused, manager_closed, not_found, get_worker,
  validate_config, add_call, start_result, add_worker, settle, insert_worker, mint,
}
use pocket_coder.Preview.Manager.Reachable.{
  Reach, started_by, fresh, began, ended, closed, end_ensure-delivers, closed_serves_nothing,
}
use pocket_coder.Preview.Manager.Leaks.{IsKept, no_leak}
use pocket_coder.Preview.Manager.Tokens.{check_token-sweep}

abbrev p : Str
p = codes "p"

abbrev cfg : Config
cfg = record {
  project_id = p;
  container_id = codes "c";
  port = 80;
  view_width = 0;
  view_height = 0;
}

abbrev no_error : Worker → Option PreviewError
no_error w = none

-- A start of worker 7, ended with token "t" at time 100.
abbrev begun : Manager
begun = (begin_ensure cfg new_manager).1

abbrev live_end : Result PreviewError Worker × Manager
live_end = end_ensure p 0 (ok (some 7)) (codes "t") 100 begun

abbrev live : Manager
live = live_end.1

abbrev shut_down : Manager
shut_down = (close_manager no_error live).1

begun-Reach : Reach no_error [] begun
begun-Reach = began cfg fresh

busy : get p begun.inflight ≡ some 0
unfolding begin_ensure validate_config add_call new_manager get put list_beq
busy = refl

live-Reach : Reach no_error (7 ∷ []) live
unfolding started_by
live-Reach = ended p 0 (ok (some 7)) (codes "t") 100 busy begun-Reach

watched : get p live.last_seen ≡ some 100
unfolding begin_ensure validate_config add_call new_manager get put del list_beq end_ensure
    start_result add_worker settle insert_worker mint
watched = refl

still_open : begun.closed ≡ false
unfolding begin_ensure validate_config add_call new_manager get put list_beq
still_open = refl

valid : validate_config cfg ≡ none
unfolding validate_config list_beq
valid = refl

shut : (close_manager no_error live).1.closed ≡ true
unfolding begin_ensure validate_config add_call new_manager get put del list_beq end_ensure
    start_result add_worker settle insert_worker mint close_manager closed_manager
shut = refl

end_ensure-delivers_example :
    (live_end.0 ≡ ok 7)
    × (await 0 live_end.1 ≡ some (ok 7))
    × (get p live_end.1.workers ≡ some 7)
    × (get p begun.workers ≡ none)
    × (has p live_end.1.tokens ≡ true)
end_ensure-delivers_example =
    end_ensure-delivers no_error begun-Reach p 0 7 (codes "t") 100 busy still_open

closed_serves_nothing_example :
    (get_worker p shut_down ≡ err not_found)
    × (begin_ensure cfg shut_down ≡ (refused manager_closed, shut_down))
    × (check_token p (codes "t") shut_down ≡ false)
closed_serves_nothing_example =
    closed_serves_nothing no_error (closed live-Reach) shut p (codes "t") cfg valid

no_leak_example : All (IsKept live) (7 ∷ [])
unfolding started_by
no_leak_example = no_leak live-Reach

check_token-sweep_example :
    check_token p (codes "t") (sweep 500 300 live).1
    ≡ (check_token p (codes "t") live && not (ltb (100 + 300) 500))
check_token-sweep_example = check_token-sweep live-Reach 500 300 100 p (codes "t") watched
