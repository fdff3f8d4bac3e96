-- ===== src/Agent/Loop/Answers.antt =====
-- When `gather` answers, and what.
use pocket_coder.Prelude.{
  ℕ, zero, suc, Bool, List, [], Option, none, some, ◌≢◌, Str, length, ◌==◌, nat_eq, list_eq,
  list_beq_iff, arith, if-branches,
}
use pocket_coder.Result.{Result, ok, err}
use pocket_coder.Agent.Loop.{
  Call, Message, Reply, Loop, LoopError, Settled, failed, nudged, final, settle_text, wants_nudge,
  add_nudge, close_answer, close_out, take_text, take_reply, gather_from, gather,
}

-- An answer that is not empty, or an error.
abbrev pub IsFull : Result LoopError Str × Loop → Type 0
IsFull (ok answer, l) = answer ≢ []
IsFull (err e, l) = Unit

IsSettledFull : Settled × Loop → Type 0
IsSettledFull (final a, l) = a ≢ []
IsSettledFull (failed e, l) = Unit
IsSettledFull (nudged, l) = Unit

settle_text-IsSettledFull :
    (tools : List Str) (max_step step : ℕ) (text : Str) (l : Loop)
    → IsSettledFull (settle_text tools max_step step text l)
unfolding settle_text IsSettledFull
settle_text-IsSettledFull tools max_step step text l =
    if-branches IsSettledFull (text == []) _ _ (λ empty. tt)
      (λ full.
        if-branches IsSettledFull (wants_nudge tools max_step step text l)
          (nudged, add_nudge text l) (final text, l) (λ nudge. tt)
          (λ end. λ z. ground (arith, list_beq_iff text [])))

module _ (ask : ℕ → Bool → List Message → Result Str (Option Reply)) (is_done : ℕ → Bool)
    (trim_space : Str → Str) where
  close_answer-IsFull :
      (max_step : ℕ) (r : Result LoopError (Option Reply) × Loop)
      → IsFull (close_answer ask is_done trim_space max_step r)
  unfolding close_answer
  close_answer-IsFull max_step (err e, l) = tt
  close_answer-IsFull max_step (ok none, l) = tt
  close_answer-IsFull max_step (ok (some r), l) =
      if-branches IsFull (trim_space r.content == []) _ _ (λ empty. tt)
        (λ full. λ z. ground (arith, list_beq_iff (trim_space r.content) []))

  module _ (run : ℕ → ℕ → Call → Result Str Str) (is_cancelled : ℕ → Bool) (tools : List Str)
      (max_step : ℕ) where
    take_text-IsFull :
        (next : Loop → Result LoopError Str × Loop)
        → ((l : Loop) → IsFull (next l))
        → (r : Settled × Loop) → IsSettledFull r
        → IsFull (take_text ask is_done trim_space run is_cancelled tools max_step next r)
    unfolding take_text IsSettledFull
    take_text-IsFull next h (failed e, l) s = tt
    take_text-IsFull next h (final a, l) s = s
    take_text-IsFull next h (nudged, l) s = h l

    take_reply-IsFull :
        (next : Loop → Result LoopError Str × Loop) (step : ℕ)
        → ((l : Loop) → IsFull (next l))
        → (r : Result LoopError Reply × Loop)
        → IsFull (take_reply ask is_done trim_space run is_cancelled tools max_step next step r)
    unfolding take_reply
    take_reply-IsFull next step h (err e, l) = tt
    take_reply-IsFull next step h (ok msg, l) =
        if-branches IsFull (length msg.tool_calls == 0) _ _
          (λ text.
            take_text-IsFull next h _
              (settle_text-IsSettledFull tools max_step step (trim_space msg.content) l))
          (λ calls. h _)

    gather_from-IsFull :
        (left step : ℕ) (l : Loop)
        → IsFull (gather_from ask is_done trim_space run is_cancelled tools max_step left step l)
    unfolding gather_from close_out
    gather_from-IsFull zero step l = close_answer-IsFull max_step _
    gather_from-IsFull (suc left) step l =
        if-branches IsFull (is_cancelled step) _ _ (λ cut. tt)
          (λ go. take_reply-IsFull _ step (λ m. gather_from-IsFull left (suc step) m) _)

    -- `gather` never passes off an empty text as an answer.
    pub gather-IsFull :
        (l : Loop) → IsFull (gather ask is_done trim_space run is_cancelled tools max_step l)
    unfolding gather
    gather-IsFull l = gather_from-IsFull max_step 0 l
