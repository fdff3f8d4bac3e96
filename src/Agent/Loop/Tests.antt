-- ===== src/Agent/Loop/Tests.antt =====
-- The loop with a model that calls one tool forever.
use pocket_coder.Prelude.{
  ℕ, suc, ◌*◌, Bool, true, false, List, [], ◌∷◌, ◌++◌, map, Option, some, ◌≡◌, Str, codes,
}
use pocket_coder.Result.{Result, ok}
use pocket_coder.Agent.Loop.{
  Call, Message, dev_msg, assistant_calls_msg, Reply, Loop, new_loop, gather, answer_tools,
  function_calls, round_text, step_attempts,
}
use pocket_coder.Agent.Loop.Rounds.{reply_id, answer_tools-replies}
use pocket_coder.Agent.Loop.Gathered.{Grown, gather-Grown}

abbrev read_call : Call
read_call = record { id = codes "1"; name = codes "read"; args = codes "{}" }

abbrev calling : Reply
calling = record {
  content = [];
  tool_calls = (record { is_function = true; call = read_call }) ∷ [];
}

abbrev ask : ℕ → Bool → List Message → Result Str (Option Reply)
ask n true msgs = ok (some calling)
ask n false msgs = ok (some (record { content = codes "done"; tool_calls = [] }))

abbrev run : ℕ → ℕ → Call → Result Str Str
run step i c = ok (codes "text")

abbrev never : ℕ → Bool
never n = false

abbrev trim : Str → Str
trim s = s

abbrev tools : List Str
tools = codes "read" ∷ []

abbrev begin : Loop
begin = new_loop (dev_msg (codes "guide") ∷ [])

answer_tools-replies_example :
    (rs : List Message) × ((answer_tools run tools 0 calling begin).msgs
      ≡ begin.msgs
        ++ (assistant_calls_msg (round_text run calling.content) (function_calls calling.tool_calls)
            ∷ rs))
    × (map reply_id rs ≡ map (λ c. some c.id) (function_calls calling.tool_calls))
answer_tools-replies_example = answer_tools-replies run tools 0 calling begin

gather-Grown_example :
    Grown (step_attempts * suc 4) 4 begin (gather ask never trim run never tools 4 begin).1
gather-Grown_example = gather-Grown ask never trim run never tools 4 begin
