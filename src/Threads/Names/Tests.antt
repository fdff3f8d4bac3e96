-- ===== src/Threads/Names/Tests.antt =====
-- The names of files that the thread store reads, and those it should not.
use pocket_coder.Prelude.{none, some, ◌≡◌, refl, codes, has_prefix, list_beq}
use pocket_coder.Threads.Names.{
  turn_file_n, has_suffix, trim_suffix, atoi, atoi_digits, scope_dir, url_path_escape, is_plain,
}

turn_file : turn_file_n (codes "12.json") ≡ some 12
unfolding turn_file_n has_suffix trim_suffix atoi atoi_digits has_prefix list_beq
turn_file = refl

lineage_file : turn_file_n (codes "12.lineage.json") ≡ none
unfolding turn_file_n has_suffix trim_suffix atoi atoi_digits has_prefix list_beq
lineage_file = refl

-- A sign makes a second name of turn 1.
signed_file : turn_file_n (codes "+1.json") ≡ some 1
unfolding turn_file_n has_suffix trim_suffix atoi atoi_digits has_prefix list_beq
signed_file = refl

-- The scope "." is the store's root.
dot_scope : scope_dir (codes ".") ≡ codes "."
unfolding scope_dir url_path_escape is_plain list_beq
dot_scope = refl
