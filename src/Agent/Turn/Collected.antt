-- ===== src/Agent/Turn/Collected.antt =====
-- What the collector makes of the events of one round.
use pocket_coder.Prelude.{
  Bool-cases, inl, inr, list_beq_iff, ◌==◌, if◌then◌else◌, List, [], ◌∷◌, ◌++◌, append-nil,
  append_assoc, map, ◌≡◌, refl, ap, ◌∙◌, Str, nat_eq, list_eq,
}
use pocket_coder.Agent.Turn.{
  Step, Round, TraceEvent, round, tool_start, tool_done, RoundCollector, add_step, finished_step,
  collect_done, collect, collect_all,
}

-- A call that ran, with what it returned: its step shows the error, or the result without one.
pub record Ran : Type 0 where
  pub tool : Str
  pub args : Str
  pub result : Str
  pub error : Str

pub begun_step : Ran → Step
begun_step r = record { tool = r.tool; args = r.args; output = []; error = [] }

pub step_of : Ran → Step
step_of r = record {
  tool = r.tool;
  args = r.args;
  output = if r.error == [] then r.result else [];
  error = r.error;
}

finished_step-begun_step : (r : Ran) → finished_step (begun_step r) r.result r.error ≡ step_of r
unfolding finished_step begun_step step_of
finished_step-begun_step r = elim (Bool-cases (r.error == [])) [
  | inl none_there ↦
      let e : r.error ≡ [] = (list_beq_iff r.error []).0 none_there in rw (none_there, e) refl
  | inr some_error ↦ rw some_error refl
]

pub starts : List Ran → List TraceEvent
starts [] = []
starts (r ∷ rs) = tool_start r.tool r.args ∷ starts rs

pub dones : List Ran → List TraceEvent
dones [] = []
dones (r ∷ rs) = tool_done r.tool r.args r.result r.error ∷ dones rs

add_step-append :
    (st : Step) (rs : List Round) (r : Round)
    → add_step st (rs ++ r ∷ []) ≡ rs ++ (record r { steps = r.steps ++ st ∷ [] }) ∷ []
unfolding add_step
add_step-append st [] r = refl
add_step-append st (q ∷ []) r = refl
add_step-append st (q ∷ q' ∷ rs) r = ap (λ xs. q ∷ xs) (add_step-append st (q' ∷ rs) r)

collect_all-starts :
    (rs : List Ran) (es : List TraceEvent) (c : RoundCollector)
    → collect_all (starts rs ++ es) c
      ≡ collect_all es (record c { pending = c.pending ++ map begun_step rs })
unfolding collect_all collect starts begun_step
collect_all-starts [] es c = rw (append-nil c.pending) refl
collect_all-starts (r ∷ rs) es c =
    collect_all-starts rs es _
    ∙ ap (λ p. collect_all es (record c { pending = p }))
        (append_assoc c.pending (begun_step r ∷ []) (map begun_step rs))

collect_all-dones :
    (rs : List Ran) (before : List Round) (r : Round)
    → collect_all (dones rs) (record { rounds = before ++ r ∷ []; pending = map begun_step rs })
      ≡ record {
        rounds = before ++ (record r { steps = r.steps ++ map step_of rs }) ∷ [];
        pending = [];
      }
unfolding collect_all collect collect_done dones
collect_all-dones [] before r = rw (append-nil r.steps) refl
collect_all-dones (x ∷ rs) before r =
    ap (λ q. collect_all (dones rs) (record { rounds = q; pending = map begun_step rs }))
      (ap (λ st. add_step st (before ++ r ∷ [])) (finished_step-begun_step x)
        ∙ add_step-append (step_of x) before r)
    ∙ (collect_all-dones rs before _
        ∙ ap (λ st. record { rounds = before ++ (record r { steps = st }) ∷ []; pending = [] })
            (append_assoc r.steps (step_of x ∷ []) (map step_of rs)))

-- The events of a round in which every call ran, all the starts before all the ends, add to the
-- transcript one round, with one step for each call in order and under its own result or error,
-- whatever the transcript was, if no step was pending.
pub collect_all-round :
    (text : Str) (rs : List Ran) (before : List Round)
    → collect_all (round text ∷ (starts rs ++ dones rs)) (record { rounds = before; pending = [] })
      ≡ record {
        rounds = before ++ (record { thought = text; steps = map step_of rs }) ∷ [];
        pending = [];
      }
unfolding collect_all collect
collect_all-round text rs before =
    collect_all-starts rs (dones rs) _
    ∙ collect_all-dones rs before (record { thought = text; steps = [] })
