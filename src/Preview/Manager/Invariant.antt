-- ===== src/Preview/Manager/Invariant.antt =====
-- What holds of the preview manager between two critical sections, and that each keeps it.
use pocket_coder.Prelude.{
  ℕ, true, false, ◌&&◌, not, List, [], ◌∷◌, Option, none, some, ◌≡◌, refl, Str, any, ◌==◌, nat_eq,
  list_eq, list_beq_iff, arith, Bool-cases, inl, inr, if-branches, option-branches,
}
use pocket_coder.Map.{Map, get, put, del, has}
use pocket_coder.Map.Laws.{get-del, has-put}
use pocket_coder.Result.{Result, ok, err}
use pocket_coder.Preview.Manager.{
  Manager, Worker, PreviewError, Config, new_manager, begin_ensure, end_ensure, add_call,
  add_worker, insert_worker, settle, close_worker, mint, start_result, forget, stop, keys, del_all,
  close_manager, closed_manager, token_or_mint, touch, silent, sweep, stop_all, validate_config,
}

-- A project with a start under way has no worker; a token belongs to a worker, and is watched
-- exactly while it lives; a closed manager has no worker.
pub record Inv (m : Manager) : Type 0 where
  pub single : (p : Str) → has p m.inflight ≡ true → has p m.workers ≡ false
  pub held : (p : Str) → has p m.tokens ≡ true → has p m.workers ≡ true
  pub watched : (p : Str) → has p m.last_seen ≡ has p m.tokens
  pub shut : m.closed ≡ true → (p : Str) → has p m.workers ≡ false

-- The invariant, of the manager that an operation leaves beside its result.
abbrev pub After : {A : Type 0} → A × Manager → Type 0
After r = Inv r.1

pub has-del :
    {V : Type 0} → (k j : Str) (m : Map Str V) → has j (del k m) ≡ (not (k == j) && has j m)
has-del k j m = ground (arith, get-del k j m)

pub has-del_all :
    {V : Type 0}
    → (ks : List Str) (j : Str) (m : Map Str V)
    → has j (del_all ks m) ≡ (not (any (λ k. k == j) ks) && has j m)
unfolding del_all
has-del_all [] j m = ground arith
has-del_all (k ∷ ks) j m = ground (arith, has-del k j (del_all ks m), has-del_all ks j m)

pub any-keys : {V : Type 0} → (j : Str) (m : Map Str V) → any (λ k. k == j) (keys m) ≡ has j m
unfolding keys get
any-keys j [] = refl
any-keys j ((k, v) ∷ m) = ground (arith, any-keys j m)

pub new_manager-Inv : Inv new_manager
unfolding new_manager get
new_manager-Inv = record {
  single = λ p h. cc;
  held = λ p h. cc;
  watched = λ p. refl;
  shut = λ h p. refl;
}

-- The calls, the heap's end and the closed workers do not matter.
settle-Inv : (c : ℕ) (r : Result PreviewError Worker) (m : Manager) → Inv m → Inv (settle c r m).1
unfolding settle
settle-Inv c r m v = record { single = v.single; held = v.held; watched = v.watched; shut = v.shut }

close_worker-Inv : (w : Worker) (m : Manager) → Inv m → Inv (close_worker w m)
unfolding close_worker
close_worker-Inv w m v = record {
  single = v.single;
  held = v.held;
  watched = v.watched;
  shut = v.shut;
}

add_call-Inv : (id : Str) (m : Manager) → has id m.workers ≡ false → Inv m → Inv (add_call id m).1
unfolding add_call
add_call-Inv id m free v = record {
  single = λ p h. ground (arith, has-put id p m.next m.inflight, v.single p, list_beq_iff id p);
  held = v.held;
  watched = v.watched;
  shut = v.shut;
}

pub begin_ensure-Inv : (cfg : Config) (m : Manager) → Inv m → Inv (begin_ensure cfg m).1
unfolding begin_ensure
begin_ensure-Inv cfg m v =
    option-branches After (validate_config cfg) _ _
      (λ good.
        if-branches After m.closed _ _ (λ shut. v)
          (λ live.
            option-branches After (get cfg.project_id m.workers) _ _
              (λ free.
                option-branches After (get cfg.project_id m.inflight) _ _
                  (λ idle. add_call-Inv cfg.project_id m (ground arith) v) (λ c busy. v))
              (λ w there. v)))
      (λ e bad. v)

freed-Inv : (id : Str) (m : Manager) → Inv m → Inv (record m { inflight = del id m.inflight })
freed-Inv id m v = record {
  single = λ p h. ground (arith, has-del id p m.inflight, v.single p);
  held = v.held;
  watched = v.watched;
  shut = v.shut;
}

-- A worker is put where no start is under way and the manager is open.
insert_worker-Inv :
    (id : Str) (w : Worker) (token : Str) (now : ℕ) (m : Manager)
    → has id m.inflight ≡ false
    → m.closed ≡ false
    → Inv m
    → Inv (insert_worker id w token now m)
unfolding insert_worker mint
insert_worker-Inv id w token now m idle live v = elim (Bool-cases (has id m.tokens)) [
  | inl there ↦ rw there (record {
    single = λ p h. ground (arith, has-put id p w m.workers, v.single p, list_beq_iff id p);
    held = λ p h. ground (arith, has-put id p w m.workers, v.held p);
    watched = v.watched;
    shut = λ c p. cc;
  })
  | inr fresh ↦ rw fresh (record {
    single = λ p h. ground (arith, has-put id p w m.workers, v.single p, list_beq_iff id p);
    held = λ p h. ground (arith, has-put id p w m.workers, has-put id p token m.tokens, v.held p);
    watched =
        λ p. ground (arith, has-put id p now m.last_seen, has-put id p token m.tokens, v.watched p);
    shut = λ c p. cc;
  })
]

add_worker-Inv :
    (id : Str) (c : ℕ) (w : Worker) (token : Str) (now : ℕ) (m : Manager)
    → has id m.inflight ≡ false
    → Inv m
    → Inv (add_worker id c w token now m).1
unfolding add_worker
add_worker-Inv id c w token now m idle v =
    if-branches After m.closed _ _ (λ shut. settle-Inv c _ _ (close_worker-Inv w m v))
      (λ live.
        option-branches After (get id m.workers) _ _
          (λ free. settle-Inv c _ _ (insert_worker-Inv id w token now m idle live v))
          (λ d dup. settle-Inv c _ _ (close_worker-Inv w m v)))

pub end_ensure-Inv :
    (id : Str) (c : ℕ) (started : Result Str (Option Worker)) (token : Str) (now : ℕ) (m : Manager)
    → Inv m
    → Inv (end_ensure id c started token now m).1
unfolding end_ensure start_result
end_ensure-Inv id c (err e) token now m v = settle-Inv c _ _ (freed-Inv id m v)
end_ensure-Inv id c (ok none) token now m v = settle-Inv c _ _ (freed-Inv id m v)
end_ensure-Inv id c (ok (some w)) token now m v =
    add_worker-Inv id c w token now _ (ground (arith, has-del id id m.inflight, list_beq_iff id id))
      (freed-Inv id m v)

forget-Inv : (id : Str) (m : Manager) → Inv m → Inv (forget id m)
unfolding forget
forget-Inv id m v = record {
  single = λ p h. ground (arith, has-del id p m.workers, v.single p);
  held = λ p h. ground (arith, has-del id p m.workers, has-del id p m.tokens, v.held p);
  watched = λ p. ground (arith, has-del id p m.last_seen, has-del id p m.tokens, v.watched p);
  shut = λ c p. ground (arith, has-del id p m.workers, v.shut c p);
}

module _ (close_error : Worker → Option PreviewError) where
  pub stop-Inv : (id : Str) (m : Manager) → Inv m → Inv (stop close_error id m).1
  unfolding stop
  stop-Inv id m v =
      option-branches After (get id m.workers) _ _ (λ gone. v)
        (λ w there. close_worker-Inv w _ (forget-Inv id m v))

  pub stop_all-Inv : (ids : List Str) (m : Manager) → Inv m → Inv (stop_all close_error ids m)
  unfolding stop_all
  stop_all-Inv [] m v = v
  stop_all-Inv (id ∷ ids) m v = stop_all-Inv ids _ (stop-Inv id m v)

  closed-Inv : (m : Manager) → Inv m → Inv (closed_manager m)
  unfolding closed_manager
  closed-Inv m v =
      let ks = keys m.workers in
      record {
        single = λ p h. ground (arith, has-del_all ks p m.workers, any-keys p m.workers);
        held = λ p h. ground (arith, has-del_all ks p m.tokens, any-keys p m.workers, v.held p);
        watched = λ p.
            ground (arith, has-del_all ks p m.tokens, has-del_all ks p m.last_seen, v.watched p);
        shut = λ c p. ground (arith, has-del_all ks p m.workers, any-keys p m.workers);
      }

  pub close_manager-Inv : (m : Manager) → Inv m → Inv (close_manager close_error m).1
  unfolding close_manager
  close_manager-Inv m v = if-branches After m.closed _ _ (λ shut. v) (λ live. closed-Inv m v)

minted-Inv :
    (id fresh : Str) (now : ℕ) (m : Manager)
    → has id m.workers ≡ true
    → Inv m
    → Inv (record m { tokens = put id fresh m.tokens; last_seen = put id now m.last_seen })
minted-Inv id fresh now m there v = record {
  single = v.single;
  held = λ p h. ground (arith, has-put id p fresh m.tokens, v.held p, list_beq_iff id p);
  watched =
      λ p. ground (arith, has-put id p now m.last_seen, has-put id p fresh m.tokens, v.watched p);
  shut = v.shut;
}

pub token_or_mint-Inv :
    (id fresh : Str) (now : ℕ) (m : Manager) → Inv m → Inv (token_or_mint id fresh now m).1
unfolding token_or_mint
token_or_mint-Inv id fresh now m v =
    option-branches After (get id m.workers) _ _ (λ gone. v)
      (λ w there.
        option-branches After (get id m.tokens) _ _
          (λ untold. minted-Inv id fresh now m (ground arith) v) (λ token old. v))

pub touch-Inv : (id : Str) (now : ℕ) (m : Manager) → Inv m → Inv (touch id now m)
unfolding touch
touch-Inv id now m v = elim (Bool-cases (has id m.tokens)) [
  | inr gone ↦ rw gone v
  | inl there ↦ rw there (record {
    single = v.single;
    held = v.held;
    watched =
        λ p. ground (arith, has-put id p now m.last_seen, v.watched p, list_beq_iff id p, there);
    shut = v.shut;
  })
]

pub sweep-Inv : (now silence : ℕ) (m : Manager) → Inv m → Inv (sweep now silence m).1
unfolding sweep
sweep-Inv now silence m v =
    let ids = silent now silence m.last_seen in
    record {
      single = v.single;
      held = λ p h. ground (arith, has-del_all ids p m.tokens, v.held p);
      watched = λ p.
          ground (arith, has-del_all ids p m.tokens, has-del_all ids p m.last_seen, v.watched p);
      shut = v.shut;
    }
