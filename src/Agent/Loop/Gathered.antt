-- ===== src/Agent/Loop/Gathered.antt =====
-- How far a turn goes: the requests and the tool rounds of `gather` are bounded, and the
-- conversation only grows.
use pocket_coder.Prelude.{
  ℕ, zero, suc, ◌+◌, ◌*◌, ◌≤◌, Bool, true, false, not, List, [], ◌∷◌, ◌++◌, append-nil,
  append_assoc, Option, none, some, ◌≡◌, refl, sym, ◌∙◌, ap, Str, codes, length, ◌==◌, nat_eq,
  list_eq, arith, if-branches,
}
use pocket_coder.Result.{Result, ok, err}
use pocket_coder.Agent.Turn.{other}
use pocket_coder.Agent.Loop.{
  Call, Message, user_msg, close_out_prompt, Reply, Loop, LoopError, Settled, failed, nudged, final,
  settle_text, wants_nudge, add_nudge, answer_tools, is_bad, returned, retry, completion,
  require_choice, no_choices, request, close_answer, close_out, take_text, take_reply, gather_from,
  gather, emit, step_attempts,
}

-- `m` comes after `l` with at most `n` more requests and `k` more rounds; the messages of `l` are
-- the first ones of `m`.
pub record Grown (n k : ℕ) (l m : Loop) : Type 0 where
  pub prefix : (extra : List Message) × (m.msgs ≡ l.msgs ++ extra)
  pub requests : m.asked ≤ l.asked + n
  pub rounds : m.rounds_done ≤ l.rounds_done + k

Grown-refl : (n k : ℕ) (l : Loop) → Grown n k l l
Grown-refl n k l = record {
  prefix = ([], sym (append-nil l.msgs));
  requests = omega arith;
  rounds = omega arith;
}

Grown-trans :
    {n k n' k' : ℕ} {l m o : Loop} → Grown n k l m → Grown n' k' m o → Grown (n + n') (k + k') l o
Grown-trans {l = l} {m} {o} g h = record {
  prefix = (
    g.prefix.0 ++ h.prefix.0,
    h.prefix.1
        ∙ (ap (λ xs. xs ++ h.prefix.0) g.prefix.1 ∙ append_assoc l.msgs g.prefix.0 h.prefix.0),
  );
  requests = omega (arith, g.requests, h.requests);
  rounds = omega (arith, g.rounds, h.rounds);
}

Grown-le : {n k n' k' : ℕ} {l m : Loop} → n ≤ n' → k ≤ k' → Grown n k l m → Grown n' k' l m
Grown-le hn hk g = record {
  prefix = g.prefix;
  requests = omega (arith, g.requests);
  rounds = omega (arith, g.rounds);
}

-- Operations that leave the messages and the rounds alone.
Grown-asked :
    (n k : ℕ) (l m : Loop)
    → m.msgs ≡ l.msgs
    → m.asked ≤ l.asked + n
    → m.rounds_done ≡ l.rounds_done
    → Grown n k l m
Grown-asked n k l m same asked rounds = record {
  prefix = ([], same ∙ sym (append-nil l.msgs));
  requests = asked;
  rounds = omega (arith, rounds);
}

module _ (ask : ℕ → Bool → List Message → Result Str (Option Reply)) (is_done : ℕ → Bool)
    (trim_space : Str → Str) where
  returned-same :
      (res : Result Str (Option Reply)) (l : Loop) → (returned ask is_done trim_space res l).1 ≡ l
  unfolding returned
  returned-same (err e) l = refl
  returned-same (ok r) l = refl

  retry-Grown :
      (left : ℕ) (b : Bool) (res : Result Str (Option Reply)) (l : Loop)
      → Grown left 0 l (retry ask is_done trim_space left b res l).1
  unfolding retry emit
  retry-Grown zero b res l = rw (returned-same res l) (Grown-refl 0 0 l)
  retry-Grown (suc left) b res l =
      let again = record (emit (other (codes "model_error") ∷ []) l) { asked = suc l.asked } in
      let rest = retry-Grown left b (ask l.asked b l.msgs) again in
      if-branches (λ (r : Result LoopError (Option Reply) × Loop). Grown (suc left) 0 l r.1)
        (not (is_bad ask is_done trim_space res)) _ _
        (λ good. rw (returned-same res l) (Grown-refl (suc left) 0 l))
        (λ bad.
          if-branches (λ (r : Result LoopError (Option Reply) × Loop). Grown (suc left) 0 l r.1)
            (is_done l.asked) _ _ (λ cut. Grown-asked (suc left) 0 l _ refl (omega arith) refl)
            (λ go. record {
              prefix = rest.prefix;
              requests = omega (arith, rest.requests);
              rounds = omega (arith, rest.rounds);
            }))

  completion-Grown :
      (b : Bool) (l : Loop) → Grown step_attempts 0 l (completion ask is_done trim_space b l).1
  unfolding completion
  completion-Grown b l =
      let rest = retry-Grown 2 b (ask l.asked b l.msgs) (record l { asked = suc l.asked }) in
      record {
        prefix = rest.prefix;
        requests = omega (arith, rest.requests);
        rounds = omega (arith, rest.rounds);
      }

  require_choice-Grown :
      (n k : ℕ) (e : LoopError) (o : Loop) (r : Result LoopError (Option Reply) × Loop)
      → Grown n k o r.1
      → Grown n k o (require_choice ask is_done trim_space e r).1
  unfolding require_choice emit
  require_choice-Grown n k e o (err d, l) g = g
  require_choice-Grown n k e o (ok none, l) g = record {
    prefix = g.prefix;
    requests = g.requests;
    rounds = g.rounds;
  }
  require_choice-Grown n k e o (ok (some r), l) g = g

  close_answer-Grown :
      (n k max_step : ℕ) (o : Loop) (r : Result LoopError (Option Reply) × Loop)
      → Grown n k o r.1
      → Grown n k o (close_answer ask is_done trim_space max_step r).1
  unfolding close_answer emit
  close_answer-Grown n k max_step o (err d, l) g = record {
    prefix = g.prefix;
    requests = g.requests;
    rounds = g.rounds;
  }
  close_answer-Grown n k max_step o (ok none, l) g = record {
    prefix = g.prefix;
    requests = g.requests;
    rounds = g.rounds;
  }
  close_answer-Grown n k max_step o (ok (some r), l) g =
      if-branches (λ (x : Result LoopError Str × Loop). Grown n k o x.1)
        (trim_space r.content == []) _ _ (λ empty. g) (λ full. g)

  close_out-Grown :
      (max_step : ℕ) (l : Loop)
      → Grown step_attempts 0 l (close_out ask is_done trim_space max_step l).1
  unfolding close_out
  close_out-Grown max_step l =
      let asking : Loop = record l { msgs = l.msgs ++ user_msg close_out_prompt ∷ [] } in
      close_answer-Grown step_attempts 0 max_step l _ (
        Grown-le (omega arith) (omega arith) (
          Grown-trans {n = 0} {k = 0} {m = asking}
            (record {
              prefix = (user_msg close_out_prompt ∷ [], refl);
              requests = omega arith;
              rounds = omega arith;
            })
            (completion-Grown false asking)))

  add_nudge-Grown : (text : Str) (l : Loop) → Grown 0 0 l (add_nudge text l)
  unfolding add_nudge
  add_nudge-Grown text l = record {
    prefix = (_, refl);
    requests = omega arith;
    rounds = omega arith;
  }

  settle_text-Grown :
      (tools : List Str) (max_step step : ℕ) (text : Str) (l : Loop)
      → Grown 0 0 l (settle_text tools max_step step text l).1
  unfolding settle_text emit
  settle_text-Grown tools max_step step text l =
      if-branches (λ (x : Settled × Loop). Grown 0 0 l x.1) (text == []) _ _
        (λ empty. Grown-asked 0 0 l _ refl (omega arith) refl)
        (λ full.
          if-branches (λ (x : Settled × Loop). Grown 0 0 l x.1)
            (wants_nudge tools max_step step text l) _ _ (λ nudge. add_nudge-Grown text l)
            (λ end. Grown-refl 0 0 l))

  module _ (run : ℕ → ℕ → Call → Result Str Str) (is_cancelled : ℕ → Bool) (tools : List Str)
      (max_step : ℕ) where
    answer_tools-Grown :
        (step : ℕ) (msg : Reply) (l : Loop) → Grown 0 1 l (answer_tools run tools step msg l)
    unfolding answer_tools
    answer_tools-Grown step msg l = record {
      prefix = (_, refl);
      requests = omega arith;
      rounds = omega arith;
    }

    take_text-Grown :
        (next : Loop → Result LoopError Str × Loop) (n k : ℕ)
        → ((l : Loop) → Grown n k l (next l).1)
        → (r : Settled × Loop)
        → Grown n k r.1 (take_text ask is_done trim_space run is_cancelled tools max_step next r).1
    unfolding take_text
    take_text-Grown next n k h (failed e, l) = Grown-refl n k l
    take_text-Grown next n k h (final a, l) = Grown-refl n k l
    take_text-Grown next n k h (nudged, l) = h l

    take_reply-Grown :
        (next : Loop → Result LoopError Str × Loop) (n k step : ℕ)
        → ((l : Loop) → Grown n k l (next l).1)
        → (r : Result LoopError Reply × Loop)
        → Grown n
            (suc k)
            r.1
            (take_reply ask is_done trim_space run is_cancelled tools max_step next step r).1
    unfolding take_reply
    take_reply-Grown next n k step h (err e, l) = Grown-refl n (suc k) l
    take_reply-Grown next n k step h (ok msg, l) =
        if-branches (λ (x : Result LoopError Str × Loop). Grown n (suc k) l x.1)
          (length msg.tool_calls == 0) _ _
          (λ text. Grown-le (omega arith) (omega arith) (
            Grown-trans (settle_text-Grown tools max_step step (trim_space msg.content) l)
              (take_text-Grown next n k h _)))
          (λ calls.
            Grown-le (omega arith) (omega arith)
              (Grown-trans (answer_tools-Grown step msg l) (h _)))

    gather_from-Grown :
        (left step : ℕ) (l : Loop)
        → Grown
            (step_attempts * suc left)
            left
            l
            (gather_from ask is_done trim_space run is_cancelled tools max_step left step l).1
    unfolding gather_from request
    gather_from-Grown zero step l =
        Grown-le (omega arith) (omega arith) (close_out-Grown max_step l)
    gather_from-Grown (suc left) step l =
        if-branches
          (λ (x : Result LoopError Str × Loop).
            Grown (step_attempts * suc (suc left)) (suc left) l x.1)
          (is_cancelled step) _ _ (λ cut. Grown-refl _ (suc left) l)
          (λ go. Grown-le (omega arith) (omega arith) (
            Grown-trans
              (require_choice-Grown step_attempts 0 (no_choices step) l _ (completion-Grown true l))
              (take_reply-Grown _ (step_attempts * suc left) left step
                (λ m. gather_from-Grown left (suc step) m) _)))

    -- However the provider, the tools and the context behave, `gather` ends after at most three
    -- requests for each of the `max_step` steps and for the closing one, and after at most `max_step`
    -- rounds of tools; the messages that it was given stay the first ones of the conversation.
    pub gather-Grown :
        (l : Loop)
        → Grown
            (step_attempts * suc max_step)
            max_step
            l
            (gather ask is_done trim_space run is_cancelled tools max_step l).1
    unfolding gather
    gather-Grown l = gather_from-Grown max_step 0 l
