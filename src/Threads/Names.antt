-- ===== src/Threads/Names.antt =====
-- The names in the thread store: scopes as path segments, thread ids, and the turn files "N.json".
-- A name is its bytes.
mod Tests
use pocket_coder.Prelude.{
  ℕ, suc, ◌+◌, ◌-◌, ◌*◌, ◌/◌, ◌%◌, ◌^◌, Bool, true, false, ◌&&◌, ◌||◌, not, List, [], ◌∷◌, ◌++◌,
  all, Option, none, some, Str, codes, length, take, ltb, leb, has_prefix, ◌==◌, nat_eq, list_eq,
  if◌then◌else◌,
}

unfoldable pub is_plain : ℕ → Bool
is_plain c =
    (leb b'a' c && leb c b'z')
    || ((leb b'A' c && leb c b'Z')
        || ((leb b'0' c && leb c b'9') || (c == b'-' || (c == b'_' || (c == b'.' || c == b'~')))))

-- `hexDigits[d]`
unfoldable pub hex_digit : ℕ → ℕ
hex_digit d = if ltb d 10 then b'0' + d else b'A' + (d - 10)

unfoldable pub url_path_escape : Str → Str
url_path_escape [] = []
url_path_escape (c ∷ s) =
    let rest = url_path_escape s in
    if is_plain c then c ∷ rest else b'%' ∷ hex_digit (c / 16) ∷ hex_digit (c % 16) ∷ rest

-- The folder of a scope and of a thread, below the store's root.
unfoldable pub scope_dir : Str → Str
scope_dir scope = if scope == [] then [] else url_path_escape scope

unfoldable pub thread_dir : Str → Str → Str
thread_dir scope id = if scope == [] then id else url_path_escape scope ++ (b'/' ∷ id)

unfoldable pub is_hex : ℕ → Bool
is_hex c = (leb b'0' c && leb c b'9') || ((leb b'a' c && leb c b'f') || (leb b'A' c && leb c b'F'))

unfoldable pub valid_id : Str → Bool
valid_id id = if id == [] || ltb 128 (length id) then false else all is_hex id

-- `strings.HasSuffix` and `strings.TrimSuffix`.
unfoldable pub has_suffix : Str → Str → Bool
has_suffix s suffix = if s == suffix then true else tail_has s suffix
  where
    tail_has : Str → Str → Bool
    tail_has [] suffix = false
    tail_has (c ∷ s) suffix = s == suffix || tail_has s suffix

unfoldable pub trim_suffix : Str → Str → Str
trim_suffix s suffix = if has_suffix s suffix then take (length s - length suffix) s else s

-- `strconv.Atoi` on a text of digits after an optional sign, none where it fails; a negative number
-- is none too, as the caller refuses it.
unfoldable pub atoi_digits : ℕ → Str → Option ℕ
atoi_digits n [] = if ltb n (2 ^ 63) then some n else none
atoi_digits n (c ∷ s) =
    let rest = atoi_digits (10 * n + (c - b'0')) s in
    if leb b'0' c && leb c b'9' then rest else none

unfoldable pub atoi : Str → Option ℕ
atoi [] = none
atoi (c ∷ s) =
    if c == b'+' then (if s == [] then none else atoi_digits 0 s) else atoi_digits 0 (c ∷ s)

unfoldable pub turn_file_n : Str → Option ℕ
turn_file_n name =
    let base = trim_suffix name (codes ".json") in
    if not (has_suffix name (codes ".json"))
    then none
    else if has_suffix name (codes ".lineage.json")
    then none
    else if name == codes "manifest.json"
    then none
    else if ltb 1 (length base) && has_prefix base (codes "0")
    then none
    else elim (atoi base) [ none ↦ none | some n ↦ if ltb n 1 then none else some n ]
