-- ===== src/Preview/Manager/Leaks.antt =====
-- No browser leaks: every worker that was started is a project's worker or was closed.
use pocket_coder.Prelude.{
  ℕ, true, List, [], ◌∷◌, ◌++◌, Option, none, some, ◌≡◌, refl, Str, any, All, ◌==◌, ==_refl, nat_eq,
  list_eq, list_beq_iff, arith, Bool-cases, inl, inr, ◌⊎◌, if-branches, option-branches,
}
use pocket_coder.Map.{Map, get, del}
use pocket_coder.Map.Laws.{get-put, get-del, get-put_self}
use pocket_coder.Result.{Result, ok, err}
use pocket_coder.Preview.Manager.{
  Manager, Worker, PreviewError, Config, begin_ensure, end_ensure, add_call, add_worker,
  insert_worker, settle, close_worker, mint, start_result, forget, stop, values, closed_manager,
  close_manager, token_or_mint, touch, sweep,
}
use pocket_coder.Preview.Manager.Reachable.{
  Reach, started_by, fresh, began, ended, stopped, closed, asked, touched, swept,
}

-- The worker was closed, or the manager still owns it.
pub data IsKept (m : Manager) (w : Worker) : Type 0 where
  was_closed : any (λ x. x == w) m.closes ≡ true → IsKept m w
  owned : (p : Str) → get p m.workers ≡ some w → IsKept m w

-- Every worker that `m` keeps, `n` keeps.
abbrev pub Keeps : Manager → Manager → Type 0
Keeps m n = (w : Worker) → IsKept m w → IsKept n w

-- Operations that leave the workers and the closed ones alone.
same-Keeps : (m n : Manager) → m.workers ≡ n.workers → m.closes ≡ n.closes → Keeps m n
same-Keeps m n same closes w (was_closed h) = was_closed (rw (← closes) h)
same-Keeps m n same closes w (owned p h) = owned p (rw (← same) h)

All-Keeps : (m n : Manager) (ws : List Worker) → Keeps m n → All (IsKept m) ws → All (IsKept n) ws
All-Keeps m n [] k h = tt
All-Keeps m n (w ∷ ws) k h = (k w h.0, All-Keeps m n ws k h.1)

closes-Keeps : (w : Worker) (m : Manager) → Keeps m (close_worker w m)
unfolding close_worker
closes-Keeps x m w (was_closed h) = was_closed (ground arith)
closes-Keeps x m w (owned p h) = owned p h

begin_ensure-Keeps : (cfg : Config) (m : Manager) → Keeps m (begin_ensure cfg m).1
unfolding begin_ensure add_call
begin_ensure-Keeps cfg m = same-Keeps _ _ (ground arith) (ground arith)

token_or_mint-Keeps :
    (id token : Str) (now : ℕ) (m : Manager) → Keeps m (token_or_mint id token now m).1
unfolding token_or_mint
token_or_mint-Keeps id token now m = same-Keeps _ _ (ground arith) (ground arith)

touch-Keeps : (id : Str) (now : ℕ) (m : Manager) → Keeps m (touch id now m)
unfolding touch
touch-Keeps id now m = same-Keeps _ _ (ground arith) (ground arith)

sweep-Keeps : (now silence : ℕ) (m : Manager) → Keeps m (sweep now silence m).1
unfolding sweep
sweep-Keeps now silence m = same-Keeps _ _ refl refl

-- The worker that `Stop` drops is the one that it closes.
stopped-Keeps :
    (id : Str) (d : Worker) (m : Manager)
    → get id m.workers ≡ some d
    → Keeps m (close_worker d (forget id m))
unfolding close_worker forget
stopped-Keeps id d m there w (was_closed h) = was_closed (ground arith)
stopped-Keeps id d m there w (owned p h) = elim (Bool-cases (id == p)) [
  | inl same ↦ was_closed (ground (arith, list_beq_iff id p))
  | inr apart ↦ owned p (ground (arith, get-del id p m.workers))
]

get-values :
    (p : Str) (w : Worker) (m : Map Str Worker)
    → get p m ≡ some w
    → any (λ x. x == w) (values m) ≡ true
unfolding get values
get-values p w [] h = cc
get-values p w ((q, x) ∷ m) h = ground (arith, get-values p w m)

any-append :
    (w : Worker) (xs ys : List Worker)
    → any (λ x. x == w) xs ≡ true ⊎ any (λ x. x == w) ys ≡ true
    → any (λ x. x == w) (xs ++ ys) ≡ true
any-append w [] ys h = ground arith
any-append w (x ∷ xs) ys h = ground (arith, any-append w xs ys)

stop-Keeps :
    (close_error : Worker → Option PreviewError) (id : Str) (m : Manager)
    → Keeps m (stop close_error id m).1
unfolding stop
stop-Keeps close_error id m =
    option-branches (λ (r : Option PreviewError × Manager). Keeps m r.1) (get id m.workers) _ _
      (λ gone. λ w k. k) (λ d there. stopped-Keeps id d m there)

closed-Keeps : (m : Manager) → Keeps m (closed_manager m)
unfolding closed_manager
closed-Keeps m w (was_closed h) = was_closed (any-append w (values m.workers) m.closes (inr h))
closed-Keeps m w (owned p h) =
    was_closed (any-append w (values m.workers) m.closes (inl (get-values p w m.workers h)))

close_manager-Keeps :
    (close_error : Worker → Option PreviewError) (m : Manager)
    → Keeps m (close_manager close_error m).1
unfolding close_manager
close_manager-Keeps close_error m =
    if-branches (λ (r : Option PreviewError × Manager). Keeps m r.1) m.closed _ _ (λ shut. λ w k. k)
      (λ live. closed-Keeps m)

insert_worker-Keeps :
    (id : Str) (d : Worker) (token : Str) (now : ℕ) (m : Manager)
    → get id m.workers ≡ none
    → Keeps m (insert_worker id d token now m)
unfolding insert_worker mint
insert_worker-Keeps id d token now m free w (was_closed h) = was_closed (ground arith)
insert_worker-Keeps id d token now m free w (owned p h) =
    owned p (ground (arith, get-put id p d m.workers, list_beq_iff id p))

-- What the second half of `Ensure` does with the started worker: it is the project's or closed.
abbrev Takes : Manager → Worker → Result PreviewError Worker × Manager → Type 0
Takes m d r = Keeps m r.1 × IsKept r.1 d

settle-Takes :
    (m n : Manager) (c : ℕ) (d : Worker) (r : Result PreviewError Worker)
    → Keeps m n
    → IsKept n d
    → Takes m d (settle c r n)
unfolding settle
settle-Takes m n c d r k kept =
    let same = same-Keeps n (settle c r n).1 refl refl in (λ w h. same w (k w h), same d kept)

close_worker-IsKept : (w : Worker) (m : Manager) → IsKept (close_worker w m) w
unfolding close_worker
close_worker-IsKept w m = was_closed (ground (arith, ==_refl w))

insert_worker-IsKept :
    (id : Str) (d : Worker) (token : Str) (now : ℕ) (m : Manager)
    → IsKept (insert_worker id d token now m) d
unfolding insert_worker mint
insert_worker-IsKept id d token now m = owned id (ground (arith, get-put_self id d m.workers))

add_worker-Takes :
    (id : Str) (c : ℕ) (d : Worker) (token : Str) (now : ℕ) (m : Manager)
    → Takes m d (add_worker id c d token now m)
unfolding add_worker
add_worker-Takes id c d token now m =
    if-branches (Takes m d) m.closed _ _
      (λ shut. settle-Takes m _ c d _ (closes-Keeps d m) (close_worker-IsKept d m))
      (λ live.
        option-branches (Takes m d) (get id m.workers) _ _
          (λ free.
            settle-Takes m _ c d _ (insert_worker-Keeps id d token now m free)
              (insert_worker-IsKept id d token now m))
          (λ dup there. settle-Takes m _ c d _ (closes-Keeps d m) (close_worker-IsKept d m)))

freed-Keeps : (id : Str) (m : Manager) → Keeps m (record m { inflight = del id m.inflight })
freed-Keeps id m = same-Keeps _ _ refl refl

failed-Keeps :
    (id : Str) (c : ℕ) (r : Result PreviewError Worker) (m : Manager)
    → Keeps m (settle c r (record m { inflight = del id m.inflight })).1
unfolding settle
failed-Keeps id c r m = same-Keeps _ _ refl refl

ended-IsKept :
    (id : Str) (c : ℕ) (started : Result Str (Option Worker)) (token : Str) (now : ℕ) (m : Manager)
    (ws : List Worker)
    → All (IsKept m) ws
    → All (IsKept (end_ensure id c started token now m).1) (started_by started ++ ws)
unfolding end_ensure start_result started_by
ended-IsKept id c (err e) token now m ws h = All-Keeps _ _ ws (failed-Keeps id c _ m) h
ended-IsKept id c (ok none) token now m ws h = All-Keeps _ _ ws (failed-Keeps id c _ m) h
ended-IsKept id c (ok (some d)) token now m ws h =
    let t = add_worker-Takes id c d token now (record m { inflight = del id m.inflight }) in
    (t.1, All-Keeps _ _ ws (λ w k. t.0 w (freed-Keeps id m w k)) h)

-- Every worker that the factory ever started is now the worker of a project, or `Close` was called
-- on it: however starts, stops and the shutdown interleave, none is left running unowned.
pub no_leak :
    {close_error : Worker → Option PreviewError} {ws : List Worker} {m : Manager}
    → Reach close_error ws m
    → All (IsKept m) ws
no_leak fresh = tt
no_leak (began {ws} {m} cfg r) = All-Keeps _ _ ws (begin_ensure-Keeps cfg m) (no_leak r)
no_leak (ended {ws} {m} id c started token now h r) =
    ended-IsKept id c started token now m ws (no_leak r)
no_leak {close_error} (stopped {ws} {m} id r) =
    All-Keeps _ _ ws (stop-Keeps close_error id m) (no_leak r)
no_leak {close_error} (closed {ws} {m} r) =
    All-Keeps _ _ ws (close_manager-Keeps close_error m) (no_leak r)
no_leak (asked {ws} {m} id token now r) =
    All-Keeps _ _ ws (token_or_mint-Keeps id token now m) (no_leak r)
no_leak (touched {ws} {m} id now r) = All-Keeps _ _ ws (touch-Keeps id now m) (no_leak r)
no_leak (swept {ws} {m} now silence r) = All-Keeps _ _ ws (sweep-Keeps now silence m) (no_leak r)
