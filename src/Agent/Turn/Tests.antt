-- ===== src/Agent/Turn/Tests.antt =====
-- The collector and the history on small inputs.
use pocket_coder.Prelude.{
  ◌≤◌, ◌<◌, List, [], ◌∷◌, ◌++◌, map, ◌≡◌, refl, Str, codes, length, list_beq, false,
}
use pocket_coder.Agent.Turn.{
  build_history, entries_of, round, tool_start, tool_done, new_collector, collect, collect_all,
  collect_done, add_step, finished_step, TurnView, HistoryOpts, total_size,
}
use pocket_coder.Agent.Turn.Collected.{Ran, starts, dones, step_of, collect_all-round}
use pocket_coder.Agent.Turn.History.{IsNewest, build_history-bounded, IsOver}

abbrev a : Str
a = codes "a"

abbrev b : Str
b = codes "b"

abbrev two_runs : List Ran
two_runs =
    record { tool = a; args = []; result = codes "ra"; error = [] }
    ∷ record { tool = b; args = []; result = []; error = codes "eb" }
    ∷ []

collect_all-round_example :
    collect_all
      (round a ∷ (starts two_runs ++ dones two_runs))
      (record { rounds = []; pending = [] })
    ≡ record { rounds = (record { thought = a; steps = map step_of two_runs }) ∷ []; pending = [] }
collect_all-round_example = collect_all-round a two_runs []

-- Two calls, the second one repeated: the repeat is blocked before the first call is done, so the
-- steps get each other's results.
blocked_repeat_mispairs :
    (collect_all
      (round a
        ∷ tool_start a []
        ∷ tool_start b []
        ∷ tool_start b []
        ∷ tool_done b [] [] (codes "blocked")
        ∷ tool_done a [] (codes "ra") []
        ∷ tool_done b [] (codes "rb") []
        ∷ [])
      new_collector).rounds
    ≡ (record {
      thought = a;
      steps =
          (record { tool = a; args = []; output = []; error = codes "blocked" })
          ∷ (record { tool = b; args = []; output = codes "ra"; error = [] })
          ∷ (record { tool = b; args = []; output = codes "rb"; error = [] })
          ∷ [];
    })
      ∷ []
unfolding collect_all collect collect_done new_collector add_step finished_step list_beq
blocked_repeat_mispairs = refl

abbrev turn : Str → TurnView
turn s = record { prompt = s; answer = s; steps = []; failed = false }

abbrev small : HistoryOpts
small = record { max_turns = 2; max_chars = 3 }

abbrev three_turns : List TurnView
three_turns = turn a ∷ turn b ∷ turn a ∷ []

build_history-bounded_example :
    (kept : List TurnView) × (build_history (λ s. s) three_turns [] small
      ≡ entries_of (λ s. s) [] kept)
    × IsNewest three_turns kept
    × (0 < 2 → length kept ≤ 2)
    × (0 < 3 → total_size kept ≤ 3)
    × ((d k : List TurnView) → d ++ k ≡ three_turns → length kept < length k → IsOver small k)
build_history-bounded_example = build_history-bounded (λ s. s) three_turns [] small
