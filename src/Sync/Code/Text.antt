-- ===== src/Sync/Code/Text.antt =====
-- The text of a code (`newCode`, `normalizeCode` of server/internal/sync/code.go): what the user
-- reads is what the server hashes.
use pocket_coder.Prelude.{
  map, sym, subst, ◌∙◌, append-nil, append_assoc, ℕ, zero, suc, ◌+◌, ◌-◌, ◌%◌, ◌≤◌, ◌<◌, Bool, true,
  false, ◌&&◌, ◌||◌, not, List, [], ◌∷◌, ◌++◌, Option, none, some, ◌≡◌, refl, Str, codes, join,
  has_byte, length, length-append, take, drop, drop-drop, length-drop, take-append-drop,
  take-eq_of_le, All-take, All-drop, all, All, All-append, leb, ◌==◌, ==_iff, nat_eq, if◌then◌else◌,
  arith, Bool-cases, inl, inr,
}
use pocket_coder.Sync.Code.{normalize_code}

-- No I, L, O or U.
abbrev pub crockford : Str
crockford = codes "0123456789ABCDEFGHJKMNPQRSTVWXYZ"

abbrev pub nth : Str → ℕ → ℕ
nth [] i = 0
nth (c ∷ s) zero = c
nth (c ∷ s) (suc i) = nth s i

-- The loop of `newCode` over the bytes of the random source; `none` where the source fails.
unfoldable pub draw : Str → List ℕ → Option Str
draw out [] = if leb 16 (length out) then some out else none
draw out (b ∷ bytes) =
    let skip = draw out bytes in
    let more = draw (out ++ nth crockford (b % length crockford) ∷ []) bytes in
    if leb 16 (length out)
    then some out
    else if leb (256 - 256 % length crockford) b
    then skip
    else more

-- `XXXX-XXXX-XXXX-XXXX`
unfoldable pub group : Str → Str
group out =
    join (codes "-")
      (take 4 out ∷ take 4 (drop 4 out) ∷ take 4 (drop 8 out) ∷ take 4 (drop 12 out) ∷ [])

unfoldable pub new_code : List ℕ → Option Str
unfolding draw group
new_code bytes = elim (draw [] bytes) [ none ↦ none | some out ↦ some (group out) ]

all_sound : (p : ℕ → Bool) (xs : Str) (c : ℕ) → all p xs ≡ true → has_byte c xs ≡ true → p c ≡ true
unfolding has_byte
all_sound p [] c h k = absurd (ground arith)
all_sound p (x ∷ xs) c h k = elim (Bool-cases (x == c)) [
  | inl same ↦ let e : x ≡ c = (==_iff x c).0 same in rw (← e) (ground arith)
  | inr other ↦ all_sound p xs c (ground arith) (ground arith)
]

abbrev pub IsCodeText : Str → Type 0
IsCodeText = All (λ c. has_byte c crockford ≡ true)

-- A drawn character stands in the alphabet.
nth-has : (s : Str) (i : ℕ) → i < length s → has_byte (nth s i) s ≡ true
unfolding has_byte
nth-has [] i h = absurd (omega arith)
nth-has (c ∷ s) zero h = ground (arith, ==_iff c c)
nth-has (c ∷ s) (suc i) h = ground (arith, nth-has s i)

drawn-has : (b : ℕ) → has_byte (nth crockford (b % 32)) crockford ≡ true
drawn-has b = nth-has crockford (b % 32) (omega arith)

draw-step :
    (out : Str) (b : ℕ) (bytes : List ℕ)
    → leb 16 (length out) ≡ false
    → b < 256
    → draw out (b ∷ bytes) ≡ draw (out ++ nth crockford (b % 32) ∷ []) bytes
unfolding draw
draw-step out b bytes short small = ground arith

-- With enough bytes the loop ends, and 16 characters have been drawn.
draw-total :
    (out : Str) (bytes : List ℕ)
    → IsCodeText out
    → length out ≤ 16
    → All (λ b. b < 256) bytes
    → 16 ≤ length out + length bytes
    → (code : Str) × (draw out bytes ≡ some code) × (length code ≡ 16) × IsCodeText code
unfolding draw
draw-total out [] t le small enough = (out, ground arith, omega arith, t)
draw-total out (b ∷ bytes) t le small enough = elim (Bool-cases (leb 16 (length out))) [
  | inl full ↦ (out, rw full, ground arith, t)
  | inr short ↦ rw (draw-step out b bytes short small.0) (
      draw-total (out ++ nth crockford (b % 32) ∷ []) bytes
        (All-append (λ c. has_byte c crockford ≡ true) out (nth crockford (b % 32) ∷ []) t
          (drawn-has b, tt))
        (ground (arith, length-append {0} out (nth crockford (b % 32) ∷ []))) small.1
        (omega (arith, length-append {0} out (nth crockford (b % 32) ∷ []))))
]

-- The character that a random byte stands for.
abbrev pub char_of : ℕ → ℕ
char_of b = nth crockford (b % 32)

-- The characters are those of the first bytes, in order.
draw-drawn :
    (out : Str) (bytes : List ℕ) (code : Str)
    → draw out bytes ≡ some code
    → length out ≤ 16
    → All (λ b. b < 256) bytes
    → 16 ≤ length out + length bytes
    → code ≡ out ++ map char_of (take (16 - length out) bytes)
unfolding draw
draw-drawn out [] code h le small enough =
    let full : leb 16 (length out) ≡ true = ground (arith, enough) in
    let same : some out ≡ some code = rw full at h in
    let is : out ≡ code = cc in
    let n : 16 - length out ≡ 0 = omega arith in rw n (sym is ∙ sym (append-nil out))
draw-drawn out (b ∷ bytes) code h le small enough = elim (Bool-cases (leb 16 (length out))) [
  | inl full ↦
      let same : some out ≡ some code = rw full at h in
      let is : out ≡ code = cc in
      let n : 16 - length out ≡ 0 = ground arith in rw n (sym is ∙ sym (append-nil out))
  | inr short ↦
      let more = out ++ char_of b ∷ [] in
      let size : length more ≡ suc (length out) =
        omega (arith, length-append {0} out (char_of b ∷ [])) in
      let room : length out < 16 = ground arith in
      let n : 16 - length out ≡ suc (16 - length more) = omega arith in
      rw n (
        draw-drawn more bytes code (sym (draw-step out b bytes short small.0) ∙ h) (omega arith)
          small.1 (omega arith)
        ∙ append_assoc out (char_of b ∷ []) (map char_of (take (16 - length more) bytes)))
]

-- What is relied on of unicode.ToUpper: it keeps the characters of a code.
pub record UppersCodes (to_upper : ℕ → ℕ) : Type 0 where
  pub alphabet : all (λ c. to_upper c == c) crockford ≡ true
  pub dash : to_upper b'-' ≡ b'-'

module _ (to_upper : ℕ → ℕ) where
  normalize_code-append :
      (xs ys : Str)
      → normalize_code to_upper (xs ++ ys)
        ≡ normalize_code to_upper xs ++ normalize_code to_upper ys
  unfolding normalize_code
  normalize_code-append [] ys = refl
  normalize_code-append (c ∷ xs) ys = ground (arith, normalize_code-append xs ys)

  is_kept : ℕ → Bool
  is_kept c =
      not (c == b'-' || (c == b' ' || (c == b'\t' || c == b'\n')))
      && (not (c == b'I' || c == b'L') && not (c == b'O'))

  kept-table : all is_kept crockford ≡ true
  unfolding is_kept
  kept-table = refl

  normalize_code-text :
      UppersCodes to_upper → (xs : Str) → IsCodeText xs → normalize_code to_upper xs ≡ xs
  unfolding normalize_code is_kept
  normalize_code-text u [] t = refl
  normalize_code-text u (c ∷ xs) t = ground (
    arith,
    normalize_code-text u xs t.1,
    all_sound is_kept crockford c kept-table t.0,
    all_sound (λ k. to_upper k == k) crockford c u.alphabet t.0,
  )

  -- `NormalizeCode` strips nothing and changes nothing on a second pass.
  pub normalize_code_idem :
      ((c : ℕ) → to_upper (to_upper c) ≡ to_upper c)
      → to_upper b'1' ≡ b'1'
      → to_upper b'0' ≡ b'0'
      → (code : Str)
      → normalize_code to_upper (normalize_code to_upper code) ≡ normalize_code to_upper code
  unfolding normalize_code
  normalize_code_idem idem one zero' [] = refl
  normalize_code_idem idem one zero' (c ∷ code) =
      ground (arith, normalize_code_idem idem one zero' code, idem c)

  normalize_code-dash :
      UppersCodes to_upper
      → (xs : Str) → normalize_code to_upper (codes "-" ++ xs) ≡ normalize_code to_upper xs
  unfolding normalize_code
  normalize_code-dash u xs = ground (arith, u.dash)

  -- The four groups spell the code.
  chunks :
      (out : Str)
      → length out ≡ 16
      → take 4 out ++ (take 4 (drop 4 out) ++ (take 4 (drop 8 out) ++ take 4 (drop 12 out))) ≡ out
  chunks out h =
      rw
        (
          take-eq_of_le 4 (drop 12 out) (omega (arith, length-drop 12 out)),
          ← drop-drop 4 8 out,
          take-append-drop 4 (drop 8 out),
          ← drop-drop 4 4 out,
          take-append-drop 4 (drop 4 out),
        )
        (take-append-drop 4 out)

  normalize_code-nil : normalize_code to_upper [] ≡ []
  unfolding normalize_code
  normalize_code-nil = refl

  normalize_code-group :
      UppersCodes to_upper
      → (out : Str) → IsCodeText out
      → length out ≡ 16
      → normalize_code to_upper (group out) ≡ out
  unfolding group join
  normalize_code-group u out t h =
      let chunk = λ (xs : Str). All-take (λ c. has_byte c crockford ≡ true) 4 xs in
      let rest = λ (n : ℕ). All-drop (λ c. has_byte c crockford ≡ true) n out t in
      simp
        (
          normalize_code-append,
          normalize_code-dash u,
          normalize_code-nil,
          normalize_code-text u (take 4 out) (chunk out t),
          normalize_code-text u (take 4 (drop 4 out)) (chunk (drop 4 out) (rest 4)),
          normalize_code-text u (take 4 (drop 8 out)) (chunk (drop 8 out) (rest 8)),
          normalize_code-text u (take 4 (drop 12 out)) (chunk (drop 12 out) (rest 12)),
        )
        (chunks out h)

  -- Sixteen bytes of the random source are enough for a code, and what the server hashes of its
  -- grouped form is the sixteen characters that those bytes stand for, in order, each of them in the
  -- alphabet.
  pub new_code-normalizes :
      UppersCodes to_upper
      → (bytes : List ℕ) → All (λ b. b < 256) bytes
      → 16 ≤ length bytes
      → (code : Str) × (new_code bytes ≡ some code)
        × (normalize_code to_upper code ≡ map char_of (take 16 bytes))
        × IsCodeText (map char_of (take 16 bytes))
  unfolding new_code
  new_code-normalizes u bytes small enough =
      let (drawn, e, h, t) = draw-total [] bytes tt (omega arith) small (omega arith) in
      let is : drawn ≡ map char_of (take 16 bytes) =
        draw-drawn [] bytes drawn e (omega arith) small (omega arith) in
      (group drawn, ground (arith, e), normalize_code-group u drawn t h ∙ is, subst IsCodeText is t)
