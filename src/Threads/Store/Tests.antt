-- ===== src/Threads/Store/Tests.antt =====
-- One thread with two turns .
use pocket_coder.Prelude.{
  ℕ, suc, ◌<◌, true, false, [], ◌∷◌, none, some, ◌≡◌, ◌≢◌, refl, Str, codes, list_beq, length, ◌==◌,
  nat_eq, list_eq,
}
use pocket_coder.Map.{get, put}
use pocket_coder.Order.{sort, insert}
use pocket_coder.Result.{ok}
use pocket_coder.Threads.Names.{thread_dir, valid_id, is_hex}
use pocket_coder.Threads.Folders.{
  Turn, Folder, Store, placeholder, put_folder, find_folder, blocks, sorted_turn_ns, turn_numbers,
  max_turn_n, read_turn, read_manifest, check_manifest,
}
use pocket_coder.Threads.Store.{reserve_followup}
use pocket_coder.Threads.Store.Turns.{reserve_followup-appends}

abbrev id : Str
id = codes "ab"

abbrev last_turn : Turn
last_turn = placeholder (codes "t2") [] (codes "why") [] 5

abbrev chat : Folder
chat = record {
  manifest = some (record { id = id; title = codes "chat"; created_at = 1 });
  turns = (1, none) ∷ (2, some last_turn) ∷ [];
  lineages = [];
  approvals = [];
}

abbrev chats : Store
chats = record { has_approvals = true; folders = (id, chat) ∷ [] }

abbrev trim : Str → Str
trim s = s

valid : valid_id id ≡ true
unfolding valid_id is_hex list_beq
valid = refl

here : find_folder (thread_dir [] id) chats ≡ some chat
unfolding find_folder thread_dir get read_manifest check_manifest list_beq
here = refl

quiet : blocks chats chat ≡ false
unfolding blocks
quiet = refl

newest : read_turn (max_turn_n chat) chat ≡ some last_turn
unfolding read_turn max_turn_n sorted_turn_ns turn_numbers sort insert get list_beq placeholder
newest = refl

asked : (trim (codes "more") == []) ≡ false
unfolding list_beq
asked = refl

has_turns : (length (sorted_turn_ns chat) == 0) ≡ false
unfolding sorted_turn_ns turn_numbers sort insert
has_turns = refl

reserve_followup-appends_example :
    (reserve_followup trim none (codes "t3") 9 [] id (codes "more") [] [] chats ≡ (
      ok (suc (max_turn_n chat), codes "t3"),
      put_folder
          (thread_dir [] id)
          (record chat {
            turns =
                put
                  (suc (max_turn_n chat))
                  (some (placeholder (codes "t3") [] (codes "more") [] 9))
                  chat.turns;
          })
          chats,
    ))
    × (get (suc (max_turn_n chat)) chat.turns ≡ none)
    × ((j : ℕ) → get j chat.turns ≢ none → j < suc (max_turn_n chat))
reserve_followup-appends_example =
    reserve_followup-appends trim (codes "t3") 9 [] id (codes "more") [] [] chats chat valid asked
      here quiet has_turns
