-- ===== src/Agent/Loop/Rounds.antt =====
-- What one round of tools does: replies in order, and no call executed twice in a row.
use pocket_coder.Prelude.{
  ℕ, suc, List, [], ◌∷◌, ◌++◌, map, Option, none, some, ◌≡◌, ◌≢◌, refl, Str, any, ◌==◌, nat_eq,
  list_eq, arith, Bool-cases, inl, inr,
}
use pocket_coder.Result.{Result}
use pocket_coder.Agent.Loop.{
  Call, Message, dev_msg, user_msg, assistant_msg, assistant_calls_msg, tool_msg, Reply, Loop,
  Planned, runs, answered, plan_calls, call_key, replies, answer_tools, function_calls, tool_reply,
  round_text,
}

-- The call that a message replies to.
abbrev pub reply_id : Message → Option Str
reply_id (dev_msg s) = none
reply_id (user_msg s) = none
reply_id (assistant_msg s) = none
reply_id (assistant_calls_msg s cs) = none
reply_id (tool_msg id s) = some id

reply_id-tool_reply : (id content : Str) → reply_id (tool_reply id content) ≡ some id
unfolding tool_reply
reply_id-tool_reply id content = ground arith

module _ (run : ℕ → ℕ → Call → Result Str Str) (tools : List Str) where
  map-reply_id :
      (step i : ℕ) (prev : Str) (cs : List Call)
      → map reply_id (replies run step i (plan_calls tools prev cs)) ≡ map (λ c. some c.id) cs
  unfolding plan_calls replies
  map-reply_id step i prev [] = refl
  map-reply_id step i prev (c ∷ cs) = elim (Bool-cases (call_key c == prev)) [
    | inl same ↦ rw (same, reply_id-tool_reply, map-reply_id step (suc i) prev cs) refl
    | inr other ↦ elim (Bool-cases (any (λ name. name == c.name) tools)) [
      | inl known ↦
          rw (other, known, reply_id-tool_reply, map-reply_id step (suc i) (call_key c) cs) refl
      | inr unknown ↦
          rw (other, unknown, reply_id-tool_reply, map-reply_id step (suc i) prev cs) refl
    ]
  ]

  -- A round adds to the conversation the assistant's message with the calls that it echoes, and
  -- then exactly one reply for each of these calls, in their order and under their ids.
  pub answer_tools-replies :
      (step : ℕ) (msg : Reply) (l : Loop)
      → (rs : List Message) × ((answer_tools run tools step msg l).msgs
          ≡ l.msgs
            ++ (assistant_calls_msg (round_text run msg.content) (function_calls msg.tool_calls)
                ∷ rs))
        × (map reply_id rs ≡ map (λ c. some c.id) (function_calls msg.tool_calls))
  unfolding answer_tools
  answer_tools-replies step msg l =
      (_, refl, map-reply_id step 0 l.last_call (function_calls msg.tool_calls))

-- The keys of the calls that a round executes.
pub executed : List Planned → List Str
executed [] = []
executed (runs c ∷ ps) = call_key c ∷ executed ps
executed (answered c out ∷ ps) = executed ps

-- Each key differs from the one before it, the first from `prev`.
abbrev pub IsUnrepeated : Str → List Str → Type 0
IsUnrepeated prev [] = Unit
IsUnrepeated prev (k ∷ ks) = (k ≢ prev) × IsUnrepeated k ks

abbrev pub last_of : Str → List Str → Str
last_of prev [] = prev
last_of prev (k ∷ ks) = last_of k ks

-- The rounds of a turn one after the other, and the keys that they execute together.
pub after_rounds : (ℕ → ℕ → Call → Result Str Str) → List Str → ℕ → List Reply → Loop → Loop
after_rounds run tools step [] l = l
after_rounds run tools step (r ∷ rs) l =
    after_rounds run tools (suc step) rs (answer_tools run tools step r l)

pub turn_keys : (ℕ → ℕ → Call → Result Str Str) → List Str → ℕ → List Reply → Loop → List Str
turn_keys run tools step [] l = []
turn_keys run tools step (r ∷ rs) l =
    executed (plan_calls tools l.last_call (function_calls r.tool_calls))
    ++ turn_keys run tools (suc step) rs (answer_tools run tools step r l)
