-- ===== src/Sync/Archive/Staged.antt =====
-- What stands in the staging directory after a copy.
use pocket_coder.Prelude.{
  ℕ, Bool, true, false, ◌||◌, not, [], ◌∷◌, some, ◌≡◌, refl, Str, length, ◌==◌, nat_eq, list_eq,
  list_beq_iff, arith, if-branches, ==_iff, Bool-cases, inl, inr,
}
use pocket_coder.Map.{Map, get, has}
use pocket_coder.Result.{Result, ok, err}
use pocket_coder.Sync.Manifest.{Entry, type_symlink}
use pocket_coder.Sync.Errors.{SyncError}
use pocket_coder.Sync.Archive.{
  File, Tree, Member, write_tar_member, check_missing, is_abs, is_link, is_regular,
}

-- The file has the entry's type and its mode as a new file gets it, and, for a regular file, the entry's size and hash; a
-- link is not absolute.
pub record IsCopy (digest : Str → Str) (perm : Str → ℕ → ℕ) (e : Entry) (f : File) : Type 0 where
  pub same_type : f.type ≡ e.type
  pub same_mode : f.mode ≡ perm e.type e.mode
  pub checked :
      (e.type == type_symlink) ≡ false → (length f.content ≡ e.size) × (digest f.content ≡ e.hash)
  pub relative : (e.type == type_symlink) ≡ true → is_abs f.content ≡ false

-- A copy of the entry, or an error.
abbrev pub Copies : (Str → Str) → (Str → ℕ → ℕ) → Entry → Result Str File → Type 0
Copies digest perm e (err text) = Unit
Copies digest perm e (ok f) = IsCopy digest perm e f

pub write_tar_member-Copies :
    (digest : Str → Str) (perm : Str → ℕ → ℕ) (e : Entry) (h : Member)
    → Copies digest perm e (write_tar_member digest perm e h)
unfolding write_tar_member
write_tar_member-Copies digest perm e h =
    if-branches (Copies digest perm e) (e.type == type_symlink) _ _
      (λ linked.
        if-branches (Copies digest perm e) (not (is_link h.kind) || is_abs h.content) _ _
          (λ bad. tt)
          (λ good. record {
            same_type = refl;
            same_mode = refl;
            checked = λ plain. cc;
            relative = λ z. ground (arith, good);
          }))
      (λ plain.
        if-branches (Copies digest perm e) (not (is_regular h.kind)) _ _ (λ bad. tt)
          (λ reg.
            if-branches (Copies digest perm e)
              (not (length h.content == e.size) || not (digest h.content == e.hash)) _ _ (λ bad. tt)
              (λ good. record {
                same_type = refl;
                same_mode = refl;
                checked = λ z. ground (
                  arith,
                  good,
                  ==_iff (length h.content) e.size,
                  list_beq_iff (digest h.content) e.hash,
                );
                relative = λ z. cc;
              })))

-- Everything staged is a copy of what the entries name there.
abbrev pub AllStaged : (Str → Str) → (Str → ℕ → ℕ) → Map Str Entry → Tree → Type 0
AllStaged digest perm want staged =
    (p : Str) (f : File)
    → get p staged ≡ some f
    → (e : Entry) × (get p want ≡ some e) × IsCopy digest perm e f

-- A staged tree, or an error.
abbrev Stages : (Tree → Type 0) → Result SyncError Tree → Type 0
Stages P (err x) = Unit
Stages P (ok staged) = P staged

module _ (digest clean : Str → Str) (perm : Str → ℕ → ℕ) (strict : Bool)
    (want : Map Str Entry) where
  pub check_missing-all :
      (staged : Tree) (ws : Map Str Entry) (p : Str)
      → check_missing strict staged ws ≡ ok tt
      → has p ws ≡ true
      → has p staged ≡ true
  unfolding check_missing get
  check_missing-all staged [] p h there = cc
  check_missing-all staged ((q, e) ∷ ws) p h there = elim (Bool-cases (has q staged)) [
    | inr gone ↦ absurd (cc (rw gone at h))
    | inl here ↦ elim (Bool-cases (q == p)) [
      | inl same ↦ ground (arith, list_beq_iff q p)
      | inr apart ↦ check_missing-all staged ws p (rw here at h) (ground (arith, there))
    ]
  ]

-- The staged tree has exactly the paths of the entries, each a copy of its entry.
pub record IsStaged (digest : Str → Str) (perm : Str → ℕ → ℕ) (want : Map Str Entry) (staged : Tree)
    : Type 0 where
  pub copies : AllStaged digest perm want staged
  pub complete : (p : Str) → has p want ≡ true → has p staged ≡ true
