-- ===== src/Preview/Manager.antt =====
-- server/internal/preview/worker.go: at most one browser worker for each project, with the tokens
-- that let a client watch it. A critical section under the manager's lock is one operation, so
-- `Ensure` is two: `begin_ensure` up to the factory's `Start`, and `end_ensure` after it. A worker
-- is an interface value, here its identity; `closes` lists the workers that `Close` was called on.
-- Time is in nanoseconds.
pub mod Invariant
pub mod Reachable
pub mod Leaks
pub mod Tokens
mod Tests
use pocket_coder.Prelude.{
  ℕ, suc, ◌+◌, Bool, true, false, ◌&&◌, not, List, [], ◌∷◌, ◌++◌, Option, none, some, Str, ltb,
  ◌==◌, nat_eq, list_eq, if◌then◌else◌,
}
use pocket_coder.Map.{Map, get, put, del, has}
use pocket_coder.Result.{Result, ok, err}

pub data PreviewError : Type 0 where
  not_found : PreviewError
  manager_closed : PreviewError
  project_required : PreviewError
  container_required : PreviewError
  start_failed : Str → Str → PreviewError
  nil_worker : Str → PreviewError

abbrev pub Worker : Type 0
Worker = ℕ

pub record Config : Type 0 where
  pub project_id : Str
  pub container_id : Str
  pub port : ℕ
  pub view_width : ℕ
  pub view_height : ℕ

-- `outcome` is none until the channel `done` is closed.
pub record StartCall : Type 0 where
  pub outcome : Option (Result PreviewError Worker)

-- The start calls stand on a heap, since the goroutines that wait keep the pointer.
pub record Manager : Type 0 where
  pub workers : Map Str Worker
  pub inflight : Map Str ℕ
  pub calls : Map ℕ StartCall
  pub next : ℕ
  pub closed : Bool
  pub tokens : Map Str Str
  pub last_seen : Map Str ℕ
  pub closes : List Worker

unfoldable pub new_manager : Manager
new_manager = record {
  workers = [];
  inflight = [];
  calls = [];
  next = 0;
  closed = false;
  tokens = [];
  last_seen = [];
  closes = [];
}

unfoldable pub validate_config : Config → Option PreviewError
validate_config cfg =
    if cfg.project_id == []
    then some project_required
    else if cfg.container_id == []
    then some container_required
    else none

-- How the first critical section of `Ensure` ends.
pub data Begun : Type 0 where
  refused : PreviewError → Begun
  running : Worker → Begun
  waiting : ℕ → Begun
  starting : ℕ → Begun

unfoldable pub add_call : Str → Manager → Begun × Manager
add_call id m = (
  starting m.next,
  record m {
    inflight = put id m.next m.inflight;
    calls = put m.next (record { outcome = none }) m.calls;
    next = suc m.next;
  },
)

unfoldable pub begin_ensure : Config → Manager → Begun × Manager
begin_ensure cfg m = elim (validate_config cfg) [
  | some e ↦ (refused e, m)
  | none ↦ if m.closed then (refused manager_closed, m) else elim (get cfg.project_id m.workers) [
    | some w ↦ (running w, m)
    | none ↦ elim (get cfg.project_id m.inflight) [
      | some c ↦ (waiting c, m)
      | none ↦ add_call cfg.project_id m
    ]
  ]
]

-- What the factory returned, as `Ensure` reads it: no error with a nil worker is an error too.
unfoldable pub start_result : Str → Result Str (Option Worker) → Result PreviewError Worker
start_result id (err e) = err (start_failed id e)
start_result id (ok none) = err (nil_worker id)
start_result id (ok (some w)) = ok w

-- `c.worker, c.err = ...; close(c.done)`
unfoldable pub settle :
    ℕ → Result PreviewError Worker → Manager → Result PreviewError Worker × Manager
settle c r m = (r, record m { calls = put c (record { outcome = some r }) m.calls })

unfoldable pub close_worker : Worker → Manager → Manager
close_worker w m = record m { closes = w ∷ m.closes }

-- A token for a project that has none, with its presence.
unfoldable pub mint : Str → Str → ℕ → Manager → Manager
mint id token now m =
    if has id m.tokens
    then m
    else record m { tokens = put id token m.tokens; last_seen = put id now m.last_seen }

unfoldable pub insert_worker : Str → Worker → Str → ℕ → Manager → Manager
insert_worker id w token now m = mint id token now (record m { workers = put id w m.workers })

-- The second critical section of `Ensure`, once a worker was started. The duplicate's
-- `m.workers[id]` is read right after the lock is released.
unfoldable pub add_worker :
    Str → ℕ → Worker → Str → ℕ → Manager → Result PreviewError Worker × Manager
add_worker id c w token now m =
    if m.closed then settle c (err manager_closed) (close_worker w m) else elim (get id m.workers) [
      | some d ↦ settle c (ok d) (close_worker w m)
      | none ↦ settle c (ok w) (insert_worker id w token now m)
    ]

unfoldable pub end_ensure :
    Str → ℕ → Result Str (Option Worker) → Str → ℕ → Manager → Result PreviewError Worker × Manager
end_ensure id c started token now m =
    let freed : Manager = record m { inflight = del id m.inflight } in
    elim (start_result id started) [
      | err e ↦ settle c (err e) freed
      | ok w ↦ add_worker id c w token now freed
    ]

-- `<-c.done; return c.worker, c.err`: none while the start is under way.
unfoldable pub await : ℕ → Manager → Option (Result PreviewError Worker)
await c m = elim (get c m.calls) [ none ↦ none | some call ↦ call.outcome ]

unfoldable pub get_worker : Str → Manager → Result PreviewError Worker
get_worker id m =
    if id == []
    then err not_found
    else elim (get id m.workers) [ none ↦ err not_found | some w ↦ ok w ]

unfoldable pub forget : Str → Manager → Manager
forget id m = record m {
  workers = del id m.workers;
  tokens = del id m.tokens;
  last_seen = del id m.last_seen;
}

-- `Stop`; a worker that is there is closed, and what its `Close` returns is the result.
unfoldable pub stop : (Worker → Option PreviewError) → Str → Manager → Option PreviewError × Manager
stop close_error id m = elim (get id m.workers) [
  | none ↦ (some not_found, m)
  | some w ↦ (close_error w, close_worker w (forget id m))
]

unfoldable pub keys {ℓ} : {V : Type ℓ} → Map Str V → List Str
keys [] = []
keys ((k, v) ∷ m) = k ∷ keys m

unfoldable pub values {ℓ} : {V : Type ℓ} → Map Str V → List V
values [] = []
values ((k, v) ∷ m) = v ∷ values m

unfoldable pub del_all {ℓ} : {V : Type ℓ} → List Str → Map Str V → Map Str V
del_all [] m = m
del_all (k ∷ ks) m = del k (del_all ks m)

unfoldable pub first_error : (Worker → Option PreviewError) → List Worker → Option PreviewError
first_error close_error [] = none
first_error close_error (w ∷ ws) =
    let rest = first_error close_error ws in elim (close_error w) [ none ↦ rest | some e ↦ some e ]

-- The manager after the critical section of `Close`, which calls `Close` on its workers then.
unfoldable pub closed_manager : Manager → Manager
closed_manager m = record m {
  closed = true;
  workers = del_all (keys m.workers) m.workers;
  tokens = del_all (keys m.workers) m.tokens;
  last_seen = del_all (keys m.workers) m.last_seen;
  closes = values m.workers ++ m.closes;
}

unfoldable pub close_manager :
    (Worker → Option PreviewError) → Manager → Option PreviewError × Manager
close_manager close_error m =
    if m.closed then (none, m) else (first_error close_error (values m.workers), closed_manager m)

-- The token, and whether it was minted now; none without a worker.
unfoldable pub token_or_mint : Str → Str → ℕ → Manager → Option (Str × Bool) × Manager
token_or_mint id fresh now m = elim (get id m.workers) [
  | none ↦ (none, m)
  | some w ↦ elim (get id m.tokens) [
    | some token ↦ (some (token, false), m)
    | none ↦ (
      some (fresh, true),
      record m { tokens = put id fresh m.tokens; last_seen = put id now m.last_seen },
    )
  ]
]

unfoldable pub check_token : Str → Str → Manager → Bool
check_token id sup m = elim (get id m.tokens) [
  | none ↦ false
  | some token ↦ if sup == [] then false else token == sup
]

unfoldable pub touch : Str → ℕ → Manager → Manager
touch id now m = if has id m.tokens then record m { last_seen = put id now m.last_seen } else m

-- The projects last seen more than `silence` ago.
unfoldable pub silent : ℕ → ℕ → Map Str ℕ → List Str
silent now silence [] = []
silent now silence ((id, seen) ∷ m) =
    let rest = silent now silence m in if ltb (seen + silence) now then id ∷ rest else rest

unfoldable pub sweep : ℕ → ℕ → Manager → List Str × Manager
sweep now silence m =
    let swept = silent now silence m.last_seen in
    (swept, record m { tokens = del_all swept m.tokens; last_seen = del_all swept m.last_seen })

-- One tick of `StartSweeper`, without the operations that may come between its parts.
unfoldable pub stop_all : (Worker → Option PreviewError) → List Str → Manager → Manager
stop_all close_error [] m = m
stop_all close_error (id ∷ ids) m = stop_all close_error ids (stop close_error id m).1

unfoldable pub sweep_tick : (Worker → Option PreviewError) → ℕ → ℕ → Manager → Manager
sweep_tick close_error now silence m =
    let swept = sweep now silence m in stop_all close_error swept.0 swept.1
