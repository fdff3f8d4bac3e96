-- ===== src/Agent/Turn.antt =====
-- server/internal/agent/turn.go: the collector that folds trace events into a transcript, and the
-- conversation rebuilt from persisted turns. `trim_space` stands for strings.TrimSpace.
-- A text is its bytes, which only the sizes of `BuildHistory` count.
pub mod History
pub mod Collected
mod Tests
use pocket_coder.Prelude.{
  ℕ, suc, ◌+◌, ◌-◌, Bool, true, false, ◌&&◌, ◌||◌, not, List, [], ◌∷◌, ◌++◌, Option, none, some,
  Str, length, drop, ltb, ◌==◌, nat_eq, list_eq, if◌then◌else◌,
}

pub record Step : Type 0 where
  pub tool : Str
  pub args : Str
  pub output : Str
  pub error : Str

pub record Round : Type 0 where
  pub thought : Str
  pub steps : List Step

-- The events by their kind; every kind that `Collect` ignores is `other`.
pub data TraceEvent : Type 0 where
  round : Str → TraceEvent
  tool_start : Str → Str → TraceEvent
  -- Tool, arguments, result and error.
  tool_done : Str → Str → Str → Str → TraceEvent
  other : Str → TraceEvent

pub record RoundCollector : Type 0 where
  pub rounds : List Round
  pub pending : List Step

unfoldable pub new_collector : RoundCollector
new_collector = record { rounds = []; pending = [] }

-- `cur.Steps = append(cur.Steps, st)` on the last round, which is made if there is none.
unfoldable pub add_step : Step → List Round → List Round
add_step st [] = record { thought = []; steps = st ∷ [] } ∷ []
add_step st (r ∷ []) = record r { steps = r.steps ++ st ∷ [] } ∷ []
add_step st (r ∷ q ∷ rs) = r ∷ add_step st (q ∷ rs)

-- The step that a `tool_done` event completes.
unfoldable pub finished_step : Step → Str → Str → Step
finished_step st result error =
    if error == [] then record st { output = result } else record st { error = error }

unfoldable pub collect_done : List Step → Str → Str → Str → Str → RoundCollector → RoundCollector
collect_done [] tool args result error c = record c {
  rounds =
      add_step
        (finished_step (record { tool = tool; args = args; output = []; error = [] }) result error)
        c.rounds;
}
collect_done (st ∷ pending) tool args result error c = record {
  pending = pending;
  rounds = add_step (finished_step st result error) c.rounds;
}

unfoldable pub collect : TraceEvent → RoundCollector → RoundCollector
collect (round text) c = record c {
  rounds = c.rounds ++ (record { thought = text; steps = [] }) ∷ [];
}
collect (tool_start tool args) c = record c {
  pending = c.pending ++ (record { tool = tool; args = args; output = []; error = [] }) ∷ [];
}
collect (tool_done tool args result error) c = collect_done c.pending tool args result error c
collect (other kind) c = c

-- The collector after a list of events.
unfoldable pub collect_all : List TraceEvent → RoundCollector → RoundCollector
collect_all [] c = c
collect_all (e ∷ es) c = collect_all es (collect e c)

pub record TurnView : Type 0 where
  pub prompt : Str
  pub answer : Str
  pub steps : List Step
  pub failed : Bool

pub record HistoryOpts : Type 0 where
  pub max_turns : ℕ
  pub max_chars : ℕ

-- An entry of the rebuilt conversation: the `map[string]any` with its role.
pub data HistoryEntry : Type 0 where
  user_entry : Str → HistoryEntry
  assistant_entry : Str → HistoryEntry
  tool_entry : Str → List Step → HistoryEntry

unfoldable pub keep_newest : ℕ → List TurnView → List TurnView
keep_newest max turns =
    if ltb 0 max && ltb max (length turns) then drop (length turns - max) turns else turns

unfoldable pub steps_size : List Step → ℕ
steps_size [] = 0
steps_size (s ∷ ss) = length s.output + length s.error + steps_size ss

unfoldable pub turn_size : TurnView → ℕ
turn_size t = length t.prompt + length t.answer + steps_size t.steps

unfoldable pub total_size : List TurnView → ℕ
total_size [] = 0
total_size (t ∷ ts) = turn_size t + total_size ts

-- The loop that drops the oldest turns while the running total is too large.
unfoldable pub drop_oldest : ℕ → ℕ → List TurnView → List TurnView
drop_oldest max total [] = []
drop_oldest max total (t ∷ ts) =
    let rest = drop_oldest max (total - turn_size t) ts in if ltb max total then rest else t ∷ ts

unfoldable pub keep_chars : ℕ → List TurnView → List TurnView
keep_chars max turns = if ltb 0 max then drop_oldest max (total_size turns) turns else turns

-- The turns that `BuildHistory` replays.
unfoldable pub kept_turns : List TurnView → HistoryOpts → List TurnView
kept_turns turns o = keep_chars o.max_chars (keep_newest o.max_turns turns)

module _ (trim_space : Str → Str) where
  unfoldable pub is_blank : Str → Bool
  is_blank s = trim_space s == []

  unfoldable pub tool_steps : List Step → List Step
  tool_steps [] = []
  tool_steps (s ∷ ss) =
      let rest = tool_steps ss in
      if is_blank s.tool || (is_blank s.output && is_blank s.error) then rest else s ∷ rest

  unfoldable pub answer_entries : TurnView → List HistoryEntry
  answer_entries t =
      if t.failed
      then []
      else if not (length (tool_steps t.steps) == 0)
      then tool_entry t.answer (tool_steps t.steps) ∷ []
      else if is_blank t.answer
      then []
      else assistant_entry t.answer ∷ []

  -- The entries of one turn in the loop of `BuildHistory`.
  unfoldable pub turn_entries : Str → TurnView → List HistoryEntry
  turn_entries user_prompt t =
      if is_blank t.prompt && (is_blank t.answer && length t.steps == 0)
      then []
      else if t.answer == [] && (not t.failed && t.prompt == user_prompt)
      then []
      else if is_blank t.prompt
      then answer_entries t
      else user_entry t.prompt ∷ answer_entries t

  unfoldable pub entries_of : Str → List TurnView → List HistoryEntry
  entries_of user_prompt [] = []
  entries_of user_prompt (t ∷ ts) = turn_entries user_prompt t ++ entries_of user_prompt ts

  unfoldable pub build_history : List TurnView → Str → HistoryOpts → List HistoryEntry
  build_history turns user_prompt o = entries_of user_prompt (kept_turns turns o)
