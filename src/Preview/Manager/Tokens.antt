-- ===== src/Preview/Manager/Tokens.antt =====
-- Tokens: which ones are accepted, and what a sweep of the silent ones does.
use pocket_coder.Prelude.{
  ℕ, ◌+◌, false, ◌&&◌, not, List, [], ◌∷◌, Option, none, some, ◌≡◌, refl, Str, any, ltb, ◌==◌,
  nat_eq, list_eq, list_beq_iff, if◌then◌else◌, arith, Bool-cases, inl, inr, if-branches,
  option-branches,
}
use pocket_coder.Map.{Map, get, has}
use pocket_coder.Map.Laws.{get-del, DistinctKeys, put-DistinctKeys, del-DistinctKeys}
use pocket_coder.Result.{Result, ok, err}
use pocket_coder.Preview.Manager.{
  Manager, Worker, PreviewError, Config, new_manager, begin_ensure, end_ensure, add_call,
  add_worker, insert_worker, settle, close_worker, mint, start_result, forget, stop, keys, del_all,
  closed_manager, close_manager, token_or_mint, touch, silent, sweep, check_token, validate_config,
}
use pocket_coder.Preview.Manager.Reachable.{
  Reach, fresh, began, ended, stopped, closed, asked, touched, swept,
}

del_all-DistinctKeys :
    {V : Type 0} → (ks : List Str) (m : Map Str V) → DistinctKeys m → DistinctKeys (del_all ks m)
unfolding del_all
del_all-DistinctKeys [] m d = d
del_all-DistinctKeys (k ∷ ks) m d = del-DistinctKeys k (del_all ks m) (del_all-DistinctKeys ks m d)

abbrev Seen : {A : Type 0} → A × Manager → Type 0
Seen r = DistinctKeys r.1.last_seen

mint-Seen :
    (id token : Str) (now : ℕ) (m : Manager)
    → DistinctKeys m.last_seen
    → DistinctKeys (mint id token now m).last_seen
unfolding mint
mint-Seen id token now m d =
    if-branches (λ (n : Manager). DistinctKeys n.last_seen) (has id m.tokens) _ _ (λ there. d)
      (λ untold. put-DistinctKeys id now m.last_seen d)

add_worker-Seen :
    (id : Str) (c : ℕ) (w : Worker) (token : Str) (now : ℕ) (m : Manager)
    → DistinctKeys m.last_seen
    → Seen (add_worker id c w token now m)
unfolding add_worker settle close_worker insert_worker
add_worker-Seen id c w token now m d =
    if-branches Seen m.closed _ _ (λ shut. d)
      (λ live.
        option-branches Seen (get id m.workers) _ _ (λ free. mint-Seen id token now _ d)
          (λ dup there. d))

end_ensure-Seen :
    (id : Str) (c : ℕ) (started : Result Str (Option Worker)) (token : Str) (now : ℕ) (m : Manager)
    → DistinctKeys m.last_seen
    → Seen (end_ensure id c started token now m)
unfolding end_ensure start_result settle
end_ensure-Seen id c (err e) token now m d = d
end_ensure-Seen id c (ok none) token now m d = d
end_ensure-Seen id c (ok (some w)) token now m d = add_worker-Seen id c w token now _ d

begin_ensure-Seen :
    (cfg : Config) (m : Manager) → DistinctKeys m.last_seen → Seen (begin_ensure cfg m)
unfolding begin_ensure add_call
begin_ensure-Seen cfg m d =
    option-branches Seen (validate_config cfg) _ _
      (λ good.
        if-branches Seen m.closed _ _ (λ shut. d)
          (λ live.
            option-branches Seen (get cfg.project_id m.workers) _ _
              (λ free.
                option-branches Seen (get cfg.project_id m.inflight) _ _ (λ idle. d) (λ c busy. d))
              (λ w there. d)))
      (λ e bad. d)

stop-Seen :
    (close_error : Worker → Option PreviewError) (id : Str) (m : Manager)
    → DistinctKeys m.last_seen
    → Seen (stop close_error id m)
unfolding stop close_worker forget
stop-Seen close_error id m d =
    option-branches Seen (get id m.workers) _ _ (λ gone. d)
      (λ w there. del-DistinctKeys id m.last_seen d)

close_manager-Seen :
    (close_error : Worker → Option PreviewError) (m : Manager)
    → DistinctKeys m.last_seen
    → Seen (close_manager close_error m)
unfolding close_manager closed_manager
close_manager-Seen close_error m d =
    if-branches Seen m.closed _ _ (λ shut. d)
      (λ live. del_all-DistinctKeys (keys m.workers) m.last_seen d)

token_or_mint-Seen :
    (id token : Str) (now : ℕ) (m : Manager)
    → DistinctKeys m.last_seen
    → Seen (token_or_mint id token now m)
unfolding token_or_mint
token_or_mint-Seen id token now m d =
    option-branches Seen (get id m.workers) _ _ (λ gone. d)
      (λ w there.
        option-branches Seen (get id m.tokens) _ _ (λ untold. put-DistinctKeys id now m.last_seen d)
          (λ t old. d))

touch-Seen :
    (id : Str) (now : ℕ) (m : Manager)
    → DistinctKeys m.last_seen
    → DistinctKeys (touch id now m).last_seen
unfolding touch
touch-Seen id now m d =
    if-branches (λ (n : Manager). DistinctKeys n.last_seen) (has id m.tokens) _ _
      (λ there. put-DistinctKeys id now m.last_seen d) (λ gone. d)

sweep-Seen : (now silence : ℕ) (m : Manager) → DistinctKeys m.last_seen → Seen (sweep now silence m)
unfolding sweep
sweep-Seen now silence m d = del_all-DistinctKeys (silent now silence m.last_seen) m.last_seen d

Reach-Seen :
    {close_error : Worker → Option PreviewError} {ws : List Worker} {m : Manager}
    → Reach close_error ws m
    → DistinctKeys m.last_seen
unfolding new_manager
Reach-Seen fresh = tt
Reach-Seen (began cfg r) = begin_ensure-Seen cfg _ (Reach-Seen r)
Reach-Seen (ended id c started token now h r) =
    end_ensure-Seen id c started token now _ (Reach-Seen r)
Reach-Seen (stopped id r) = stop-Seen _ id _ (Reach-Seen r)
Reach-Seen (closed r) = close_manager-Seen _ _ (Reach-Seen r)
Reach-Seen (asked id token now r) = token_or_mint-Seen id token now _ (Reach-Seen r)
Reach-Seen (touched id now r) = touch-Seen id now _ (Reach-Seen r)
Reach-Seen (swept now silence r) = sweep-Seen now silence _ (Reach-Seen r)

-- Whether a project is among the silent ones.
any-silent_absent :
    (now silence : ℕ) (id : Str) (m : Map Str ℕ)
    → get id m ≡ none
    → any (λ k. k == id) (silent now silence m) ≡ false
unfolding silent get
any-silent_absent now silence id [] h = refl
any-silent_absent now silence id ((k, seen) ∷ m) h =
    ground (arith, any-silent_absent now silence id m)

any-silent :
    (now silence : ℕ) (id : Str) (seen : ℕ) (m : Map Str ℕ)
    → DistinctKeys m
    → get id m ≡ some seen
    → any (λ k. k == id) (silent now silence m) ≡ ltb (seen + silence) now
unfolding silent get
any-silent now silence id seen [] d h = cc
any-silent now silence id seen ((k, s) ∷ m) d h = elim (Bool-cases (k == id)) [
  | inl same ↦ ground (arith, any-silent_absent now silence id m, list_beq_iff k id, d.0)
  | inr apart ↦ ground (arith, any-silent now silence id seen m d.1)
]

get-del_all :
    {V : Type 0}
    → (ks : List Str) (j : Str) (m : Map Str V)
    → get j (del_all ks m) ≡ (if any (λ k. k == j) ks then none else get j m)
unfolding del_all
get-del_all [] j m = refl
get-del_all (k ∷ ks) j m = ground (arith, get-del k j (del_all ks m), get-del_all ks j m)

-- After a sweep, a token is accepted exactly if it was accepted before and its project was last
-- seen no longer than `silence` ago.
pub check_token-sweep :
    {close_error : Worker → Option PreviewError} {ws : List Worker} {m : Manager}
    → Reach close_error ws m
    → (now silence seen : ℕ) (id sup : Str) → get id m.last_seen ≡ some seen
    → check_token id sup (sweep now silence m).1
      ≡ (check_token id sup m && not (ltb (seen + silence) now))
unfolding check_token sweep
check_token-sweep {m = m} r now silence seen id sup here = ground (
  arith,
  get-del_all (silent now silence m.last_seen) id m.tokens,
  any-silent now silence id seen m.last_seen (Reach-Seen r) here,
)
