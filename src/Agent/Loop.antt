-- ===== src/Agent/Loop.antt =====
-- server/internal/agent/loop.go with Completion of completion.go: the loop that asks the model,
-- runs the tools that it calls, and ends in an answer. The provider, the tools' `Run`, the context
-- and strings.TrimSpace are parameters. The lineage, a debugging log that the loop never reads, is
-- left out, with the texts of errors beyond what tells them apart. Executable calls of a round run
-- concurrently and share nothing, so each one's result is a parameter of its place.
-- A text is its runes, which only `cap_msg` counts.
pub mod Rounds
pub mod Gathered
pub mod Answers
mod Tests
use pocket_coder.Prelude.{
  ℕ, zero, suc, ◌+◌, ◌-◌, ◌*◌, Bool, true, false, ◌&&◌, ◌||◌, not, List, [], ◌∷◌, ◌++◌, map, Option,
  none, some, Str, codes, length, take, any, ltb, ◌==◌, nat_eq, list_eq, if◌then◌else◌, has_prefix,
}
use pocket_coder.Result.{Result, ok, err}
use pocket_coder.Agent.Turn.{TraceEvent, round, tool_start, tool_done, other}

pub record Call : Type 0 where
  pub id : Str
  pub name : Str
  pub args : Str

pub data Message : Type 0 where
  dev_msg : Str → Message
  user_msg : Str → Message
  assistant_msg : Str → Message
  assistant_calls_msg : Str → List Call → Message
  tool_msg : Str → Str → Message

-- A call as the model asked for it; only those of type "function" count.
pub record ToolCall : Type 0 where
  pub is_function : Bool
  pub call : Call

-- `res.Choices[0].Message`
pub record Reply : Type 0 where
  pub content : Str
  pub tool_calls : List ToolCall

pub data LoopError : Type 0 where
  cancelled_error : LoopError
  provider_error : Str → LoopError
  no_choices : ℕ → LoopError
  empty_answer : ℕ → LoopError
  kept_calling : ℕ → LoopError

-- What the loop carries; `asked` counts the calls of the provider, `trace` lists the events.
pub record Loop : Type 0 where
  pub msgs : List Message
  pub last_call : Str
  pub rounds_done : ℕ
  pub ground_nudged : Bool
  pub asked : ℕ
  pub trace : List TraceEvent

unfoldable pub new_loop : List Message → Loop
new_loop msgs = record {
  msgs = msgs;
  last_call = [];
  rounds_done = 0;
  ground_nudged = false;
  asked = 0;
  trace = [];
}

abbrev pub grounding_nudge : Str
grounding_nudge =
    codes
      "Before answering, ground your answer: call at least one available tool to verify against the repo. If the question has nothing to do with this repo's code, answer directly instead."

abbrev pub close_out_prompt : Str
close_out_prompt =
    codes
      "You have used all available tool rounds. Provide your final answer now based on everything gathered — no more tool calls."

-- `strings.Contains(s, part)`
unfoldable pub contains : Str → Str → Bool
contains [] part = has_prefix [] part
contains (c ∷ s) part = has_prefix (c ∷ s) part || contains s part

unfoldable pub emit : List TraceEvent → Loop → Loop
emit events l = record l { trace = l.trace ++ events }

-- An empty result still needs a message.
unfoldable pub tool_reply : Str → Str → Message
tool_reply id content = if content == [] then tool_msg id (codes "(empty)") else tool_msg id content

abbrev pub step_attempts : ℕ
step_attempts = 3

abbrev pub max_msg_tool_chars : ℕ
max_msg_tool_chars = 8 * 1024

-- What the model wrote, as runes.
unfoldable pub cap_msg : Str → Str
cap_msg s =
    if ltb max_msg_tool_chars (length s)
    then take max_msg_tool_chars s
      ++ codes "\n…(output truncated — narrow the range or pattern instead of repeating this call)"
    else s

-- `name + "\x00" + args`
unfoldable pub call_key : Call → Str
call_key c = c.name ++ (0 ∷ c.args)

unfoldable pub function_calls : List ToolCall → List Call
function_calls [] = []
function_calls (t ∷ ts) =
    let rest = function_calls ts in if t.is_function then t.call ∷ rest else rest

-- A call of the round after the loop that sorts them: to run, or answered already.
pub data Planned : Type 0 where
  runs : Call → Planned
  answered : Call → Str → Planned

unfoldable pub repeat_text : Str → Str
repeat_text name =
    codes "error: identical to the previous tool call ("
    ++ (name
        ++ codes
            ") — not executed. Do not repeat it: change the tool or arguments, or answer with what you have.")

abbrev pub blocked : Str
blocked = codes "blocked consecutive repeat"

-- The calls of a round in order, `prev` being the key of the last executed call so far.
unfoldable pub plan_calls : List Str → Str → List Call → List Planned
plan_calls tools prev [] = []
plan_calls tools prev (c ∷ cs) =
    let skipped = plan_calls tools prev cs in
    let rest = plan_calls tools (call_key c) cs in
    if call_key c == prev
    then answered c (repeat_text c.name) ∷ skipped
    else if any (λ name. name == c.name) tools
    then runs c ∷ rest
    else answered c (codes "unknown tool " ++ c.name) ∷ skipped

-- `prev` after the loop.
unfoldable pub last_key : List Str → Str → List Call → Str
last_key tools prev [] = prev
last_key tools prev (c ∷ cs) =
    let skipped = last_key tools prev cs in
    let rest = last_key tools (call_key c) cs in
    if call_key c == prev
    then skipped
    else if any (λ name. name == c.name) tools
    then rest
    else skipped

-- The events of that loop.
unfoldable pub plan_trace : List Str → Str → List Call → List TraceEvent
plan_trace tools prev [] = []
plan_trace tools prev (c ∷ cs) =
    let skipped = plan_trace tools prev cs in
    let rest = plan_trace tools (call_key c) cs in
    if call_key c == prev
    then tool_start c.name c.args ∷ tool_done c.name c.args [] blocked ∷ skipped
    else if any (λ name. name == c.name) tools
    then tool_start c.name c.args ∷ rest
    else skipped

module _ (run : ℕ → ℕ → Call → Result Str Str) where
  unfoldable pub result_text : Result Str Str → Str
  result_text (ok out) = out
  result_text (err e) = codes "error: " ++ e

  unfoldable pub error_of : Result Str Str → Str
  error_of (ok out) = []
  error_of (err e) = e

  -- The replies of a round in order, `i` being the place in the round.
  unfoldable pub replies : ℕ → ℕ → List Planned → List Message
  replies step i [] = []
  replies step i (answered c out ∷ ps) = tool_reply c.id out ∷ replies step (suc i) ps
  replies step i (runs c ∷ ps) =
      tool_reply c.id (cap_msg (result_text (run step i c))) ∷ replies step (suc i) ps

  unfoldable pub done_trace : ℕ → ℕ → List Planned → List TraceEvent
  done_trace step i [] = []
  done_trace step i (answered c out ∷ ps) = done_trace step (suc i) ps
  done_trace step i (runs c ∷ ps) =
      tool_done c.name c.args (result_text (run step i c)) (error_of (run step i c))
      ∷ done_trace step (suc i) ps

  unfoldable pub round_text : Str → Str
  round_text content = if content == [] then codes "(calling tools)" else content

  unfoldable pub answer_tools : List Str → ℕ → Reply → Loop → Loop
  answer_tools tools step msg l =
      let calls = function_calls msg.tool_calls in
      let planned = plan_calls tools l.last_call calls in
      record l {
        rounds_done = suc l.rounds_done;
        last_call = last_key tools l.last_call calls;
        msgs =
            l.msgs ++ (assistant_calls_msg (round_text msg.content) calls ∷ replies step 0 planned);
        trace =
            l.trace
            ++ (round (round_text msg.content)
                ∷ (plan_trace tools l.last_call calls ++ done_trace step 0 planned));
      }

-- How `settleText` ends.
pub data Settled : Type 0 where
  failed : LoopError → Settled
  nudged : Settled
  final : Str → Settled

-- The condition of the one grounding nudge of a turn, and the nudge.
unfoldable pub wants_nudge : List Str → ℕ → ℕ → Str → Loop → Bool
wants_nudge tools max_step step text l =
    not (length tools == 0)
    && (l.rounds_done == 0
        && (not l.ground_nudged
            && (ltb step (max_step - 1) && not (contains text (codes "Not a codebase question")))))

unfoldable pub add_nudge : Str → Loop → Loop
add_nudge text l = record l {
  ground_nudged = true;
  msgs = l.msgs ++ (assistant_msg text ∷ user_msg grounding_nudge ∷ []);
}

unfoldable pub settle_text : List Str → ℕ → ℕ → Str → Loop → Settled × Loop
settle_text tools max_step step text l =
    if text == []
    then (failed (empty_answer step), emit (other (codes "model_error") ∷ []) l)
    else if wants_nudge tools max_step step text l
    then (nudged, add_nudge text l)
    else (final text, l)

module _ (ask : ℕ → Bool → List Message → Result Str (Option Reply)) (is_done : ℕ → Bool)
    (trim_space : Str → Str) where
  -- `describe(res) != ""`, or an error.
  unfoldable pub is_bad : Result Str (Option Reply) → Bool
  is_bad (err e) = true
  is_bad (ok none) = true
  is_bad (ok (some r)) = length r.tool_calls == 0 && trim_space r.content == []

  -- What `Completion` returns for the last call.
  unfoldable pub returned :
      Result Str (Option Reply) → Loop → Result LoopError (Option Reply) × Loop
  returned (err e) l = (err (provider_error e), l)
  returned (ok r) l = (ok r, l)

  -- The retries of `Completion`; `is_done n` tells whether the context ends in the pause after the
  -- n-th call.
  unfoldable pub retry :
      ℕ → Bool → Result Str (Option Reply) → Loop → Result LoopError (Option Reply) × Loop
  retry zero with_tools res l = returned res l
  retry (suc left) with_tools res l =
      let t = emit (other (codes "model_error") ∷ []) l in
      let rest =
        retry left with_tools (ask t.asked with_tools t.msgs) (record t { asked = suc t.asked }) in
      if not (is_bad res)
      then returned res l
      else if is_done l.asked
      then (err cancelled_error, t)
      else rest

  unfoldable pub completion : Bool → Loop → Result LoopError (Option Reply) × Loop
  completion with_tools l =
      retry (step_attempts - 1) with_tools (ask l.asked with_tools l.msgs)
        (record l { asked = suc l.asked })

  unfoldable pub require_choice :
      LoopError → Result LoopError (Option Reply) × Loop → Result LoopError Reply × Loop
  require_choice e (err d, l) = (err d, l)
  require_choice e (ok none, l) = (err e, emit (other (codes "model_error") ∷ []) l)
  require_choice e (ok (some r), l) = (ok r, l)

  unfoldable pub request : ℕ → Loop → Result LoopError Reply × Loop
  request step l = require_choice (no_choices step) (completion true l)

  -- The end of `closeOut`: an error of any kind reads "model kept calling tools".
  unfoldable pub close_answer :
      ℕ → Result LoopError (Option Reply) × Loop → Result LoopError Str × Loop
  close_answer max_step (err e, l) =
      (err (kept_calling max_step), emit (other (codes "model_error") ∷ []) l)
  close_answer max_step (ok none, l) =
      (err (kept_calling max_step), emit (other (codes "model_error") ∷ []) l)
  close_answer max_step (ok (some r), l) =
      let text = trim_space r.content in
      if text == [] then (err (kept_calling max_step), l) else (ok text, l)

  unfoldable pub close_out : ℕ → Loop → Result LoopError Str × Loop
  close_out max_step l =
      close_answer max_step
        (completion false (record l { msgs = l.msgs ++ user_msg close_out_prompt ∷ [] }))

  module _ (run : ℕ → ℕ → Call → Result Str Str) (is_cancelled : ℕ → Bool) (tools : List Str)
      (max_step : ℕ) where
    -- A tool-free reply of a step: an answer, or a nudge after which the loop goes on with `next`.
    unfoldable pub take_text :
        (Loop → Result LoopError Str × Loop) → Settled × Loop → Result LoopError Str × Loop
    take_text next (failed e, l) = (err e, l)
    take_text next (final answer, l) = (ok answer, l)
    take_text next (nudged, l) = next l

    unfoldable pub take_reply :
        (Loop → Result LoopError Str × Loop)
        → ℕ
        → Result LoopError Reply × Loop
        → Result LoopError Str × Loop
    take_reply next step (err e, l) = (err e, l)
    take_reply next step (ok msg, l) =
        if length msg.tool_calls == 0
        then take_text next (settle_text tools max_step step (trim_space msg.content) l)
        else next (answer_tools run tools step msg l)

    -- The loop of `gather` from `step` on, with `left` steps to go.
    unfoldable pub gather_from : ℕ → ℕ → Loop → Result LoopError Str × Loop
    gather_from zero step l = close_out max_step l
    gather_from (suc left) step l =
        if is_cancelled step
        then (err cancelled_error, l)
        else take_reply (gather_from left (suc step)) step (request step l)

    unfoldable pub gather : Loop → Result LoopError Str × Loop
    gather l = gather_from max_step 0 l
