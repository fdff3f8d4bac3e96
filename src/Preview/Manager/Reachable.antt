-- ===== src/Preview/Manager/Reachable.antt =====
-- The managers that interleaved critical sections reach, with the workers that the factory started
-- on the way. A call of `Ensure` that began a start ends it later, with whatever came between.
use pocket_coder.Prelude.{
  ℕ, true, false, List, [], ◌∷◌, ◌++◌, Option, none, some, ◌≡◌, refl, Str, nat_eq, list_eq, arith,
}
use pocket_coder.Map.{get, del, has}
use pocket_coder.Map.Laws.{get-put_self}
use pocket_coder.Result.{Result, ok, err}
use pocket_coder.Preview.Manager.{
  Manager, Worker, PreviewError, manager_closed, not_found, Config, refused, waiting, new_manager,
  begin_ensure, end_ensure, add_worker, insert_worker, settle, mint, start_result, stop,
  close_manager, token_or_mint, touch, sweep, validate_config, await, get_worker, check_token,
}
use pocket_coder.Preview.Manager.Invariant.{
  Inv, new_manager-Inv, begin_ensure-Inv, end_ensure-Inv, stop-Inv, close_manager-Inv,
  token_or_mint-Inv, touch-Inv, sweep-Inv,
}

unfoldable pub started_by : Result Str (Option Worker) → List Worker
started_by (err e) = []
started_by (ok none) = []
started_by (ok (some w)) = w ∷ []

module _ (close_error : Worker → Option PreviewError) where
  pub data Reach : List Worker → Manager → Type 0 where
    fresh : Reach [] new_manager
    began :
        {ws : List Worker} {m : Manager} (cfg : Config)
        → Reach ws m
        → Reach ws (begin_ensure cfg m).1
    ended :
        {ws : List Worker} {m : Manager} (id : Str) (c : ℕ) (started : Result Str (Option Worker))
        (token : Str) (now : ℕ)
        → get id m.inflight ≡ some c
        → Reach ws m
        → Reach (started_by started ++ ws) (end_ensure id c started token now m).1
    stopped :
        {ws : List Worker} {m : Manager} (id : Str)
        → Reach ws m
        → Reach ws (stop close_error id m).1
    closed :
        {ws : List Worker} {m : Manager} → Reach ws m → Reach ws (close_manager close_error m).1
    asked :
        {ws : List Worker} {m : Manager} (id token : Str) (now : ℕ)
        → Reach ws m
        → Reach ws (token_or_mint id token now m).1
    touched :
        {ws : List Worker} {m : Manager} (id : Str) (now : ℕ)
        → Reach ws m
        → Reach ws (touch id now m)
    swept :
        {ws : List Worker} {m : Manager} (now silence : ℕ)
        → Reach ws m
        → Reach ws (sweep now silence m).1

  pub Reach-Inv : {ws : List Worker} {m : Manager} → Reach ws m → Inv m
  Reach-Inv fresh = new_manager-Inv
  Reach-Inv (began cfg r) = begin_ensure-Inv cfg _ (Reach-Inv r)
  Reach-Inv (ended id c started token now h r) =
      end_ensure-Inv id c started token now _ (Reach-Inv r)
  Reach-Inv (stopped id r) = stop-Inv close_error id _ (Reach-Inv r)
  Reach-Inv (closed r) = close_manager-Inv close_error _ (Reach-Inv r)
  Reach-Inv (asked id token now r) = token_or_mint-Inv id token now _ (Reach-Inv r)
  Reach-Inv (touched id now r) = touch-Inv id now _ (Reach-Inv r)
  Reach-Inv (swept now silence r) = sweep-Inv now silence _ (Reach-Inv r)

  -- While a project's start is under way, a second `Ensure` waits for that start and changes
  -- nothing, and the project has no worker.
  pub begin_ensure-shares :
      {ws : List Worker} {m : Manager}
      → Reach ws m
      → (cfg : Config) (c : ℕ) → get cfg.project_id m.inflight ≡ some c
      → validate_config cfg ≡ none
      → m.closed ≡ false
      → (begin_ensure cfg m ≡ (waiting c, m)) × (get cfg.project_id m.workers ≡ none)
  unfolding begin_ensure
  begin_ensure-shares {ws} {m} r cfg c busy good live =
      let free : get cfg.project_id m.workers ≡ none =
        ground (arith, (Reach-Inv r).single cfg.project_id) in
      (simp (begin_ensure, good, live, free, busy), free)

  -- When a start ends, on an open manager, the worker that it started is the project's: the
  -- starter returns it, those who wait get it, and the project has a token. No worker was there
  -- before, so none is replaced.
  pub end_ensure-delivers :
      {ws : List Worker} {m : Manager}
      → Reach ws m
      → (id : Str) (c : ℕ) (w : Worker) (token : Str) (now : ℕ) → get id m.inflight ≡ some c
      → m.closed ≡ false
      → let after = end_ensure id c (ok (some w)) token now m in
        (after.0 ≡ ok w)
        × (await c after.1 ≡ some (ok w))
        × (get id after.1.workers ≡ some w)
        × (get id m.workers ≡ none)
        × (has id after.1.tokens ≡ true)
  unfolding end_ensure start_result add_worker settle await insert_worker mint
  end_ensure-delivers {ws} {m} r id c w token now busy live =
      let free : get id m.workers ≡ none = ground (arith, (Reach-Inv r).single id) in
      rw (live, free)
        (
          refl,
          ground (
            arith,
            get-put_self c (record { outcome = some (ok w) })
                (insert_worker id w token now (record m { inflight = del id m.inflight })).calls,
          ),
          ground (arith, get-put_self id w m.workers),
          refl,
          ground (arith, get-put_self id token m.tokens),
        )

  -- A closed manager serves nothing any more: it has no worker, it refuses to start one, and no
  -- token is accepted.
  pub closed_serves_nothing :
      {ws : List Worker} {m : Manager}
      → Reach ws m
      → m.closed ≡ true
      → (id sup : Str) (cfg : Config) → validate_config cfg ≡ none
      → (get_worker id m ≡ err not_found)
        × (begin_ensure cfg m ≡ (refused manager_closed, m))
        × (check_token id sup m ≡ false)
  unfolding get_worker begin_ensure check_token
  closed_serves_nothing {ws} {m} r shut id sup cfg good =
      let v = Reach-Inv r in
      (
        ground (arith, v.shut shut id),
        rw (begin_ensure, good, shut) refl,
        ground (arith, v.shut shut id, v.held id),
      )
