-- ===== src/Threads/Approvals/Tests.antt =====
-- One thread with a pending approval.
use pocket_coder.Prelude.{
  suc, true, [], ◌∷◌, none, some, ◌≡◌, refl, inl, Str, codes, count, list_beq, nat_eq, list_eq,
}
use pocket_coder.Result.{ok, err}
use pocket_coder.Threads.Folders.{
  Turn, Approval, Folder, Store, already_resolved, placeholder, put_folder, is_pending,
  approval_status, approval_approved,
}
use pocket_coder.Threads.Approvals.{resolve_in, find_item}
use pocket_coder.Threads.Approvals.Once.{resolve_in-once}

abbrev id : Str
id = codes "ab"

abbrev last_turn : Turn
last_turn = placeholder (codes "t2") [] (codes "why") [] 5

abbrev chat : Folder
chat = record {
  manifest = some (record { id = id; title = codes "chat"; created_at = 1 });
  turns = (1, none) ∷ (2, some last_turn) ∷ [];
  lineages = [];
  approvals = [];
}

abbrev chats : Store
chats = record { has_approvals = true; folders = (id, chat) ∷ [] }

abbrev trim : Str → Str
trim s = s

abbrev ask_push : Approval
ask_push = record {
  id = codes "q";
  turn_id = codes "t2";
  status = [];
  tool = codes "push";
  args = [];
  summary = [];
  blast_radius = [];
  created_at = 5;
  resolved_at = 0;
}

abbrev asking : Folder
asking = record chat { approvals = ask_push ∷ [] }

pending : is_pending ask_push ≡ true
unfolding is_pending approval_status list_beq
pending = refl

found : find_item (codes "q") asking.approvals ≡ some ask_push
unfolding find_item list_beq
found = refl

resolve_in-once_example :
    (g : Folder) × (resolve_in none 7 id (codes "q") approval_approved asking chats
      ≡ (ok tt, put_folder id g chats))
    × (suc (count is_pending g.approvals) ≡ count is_pending asking.approvals)
    × (resolve_in none 8 id (codes "q") (codes "discarded") g chats ≡ (err already_resolved, chats))
resolve_in-once_example =
    resolve_in-once 7 8 id (codes "q") approval_approved (codes "discarded") asking chats chats
      ask_push (inl refl) found pending
