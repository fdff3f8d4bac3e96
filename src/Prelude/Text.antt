-- ===== src/Prelude/Text.antt =====
-- A Go string is its bytes, `codes` gives the bytes of an ASCII literal, and the functions of
-- package strings that the program calls.
use Prim.Native.Nat.{ℕ}
use Prim.Native.Char.{code}
use Prim.Native.String.{String}
use mathlib.Core.Bool.{Bool, true, false, ◌&&◌, ◌||◌}
use mathlib.Core.List.{List, [], ◌∷◌, ◌++◌}
use mathlib.Core.List.{head?}
use mathlib.Core.Logic.{◌⊎◌, inl, inr, ◌≢◌}
use mathlib.Core.Option.{some}
use mathlib.Core.Path.{◌≡◌, refl, subst}
use native.Mathlib.Omega.{arith}
use pocket_coder.Prelude.Tests.{if◌then◌else◌, ◌==◌, Bool-cases}

abbrev pub Str : Type 0
Str = List ℕ

abbrev pub codes : String → Str
codes String.[] = []
codes (String.◌∷◌ c s) = code c ∷ codes s

-- `strings.Split` at a separator of one byte: always at least one part.
prepend : ℕ → List Str → List Str
prepend c [] = (c ∷ []) ∷ []
prepend c (p ∷ ps) = (c ∷ p) ∷ ps

unfoldable pub split : ℕ → Str → List Str
unfolding prepend
split sep [] = [] ∷ []
split sep (c ∷ s) = let rest = split sep s in if c == sep then [] ∷ rest else prepend c rest

-- `strings.Join` with a separator.
unfoldable pub join : Str → List Str → Str
join sep [] = []
join sep (p ∷ []) = p
join sep (p ∷ q ∷ ps) = p ++ (sep ++ join sep (q ∷ ps))

-- `strings.HasPrefix s prefix`.
unfoldable pub has_prefix : Str → Str → Bool
has_prefix s [] = true
has_prefix [] (c ∷ p) = false
has_prefix (d ∷ s) (c ∷ p) = d == c && has_prefix s p

-- `strings.TrimPrefix s prefix`.
strip : Str → Str → Str → Str
strip all s [] = s
strip all [] (c ∷ p) = all
strip all (d ∷ s) (c ∷ p) = let rest = strip all s p in if d == c then rest else all

unfoldable pub trim_prefix : Str → Str → Str
unfolding strip
trim_prefix s p = strip s s p

unfoldable pub has_byte : ℕ → Str → Bool
has_byte b [] = false
has_byte b (c ∷ s) = c == b || has_byte b s

-- Inversion of `prepend`.
head?-prepend :
    (c : ℕ) (ps : List Str) (g : Str)
    → head? (prepend c ps) ≡ some g
    → ps ≢ []
    → (g' : Str) × (head? ps ≡ some g') × (g ≡ c ∷ g')
unfolding prepend
head?-prepend c [] g h ne = absurd (ne refl)
head?-prepend c (p ∷ ps) g h ne = (p, refl, cc)

prepend-ne-nil : (c : ℕ) (ps : List Str) → prepend c ps ≢ []
unfolding prepend
prepend-ne-nil c [] h = cc
prepend-ne-nil c (p ∷ ps) h = cc

pub split-ne-nil : (sep : ℕ) (s : Str) → split sep s ≢ []
unfolding split
split-ne-nil sep [] h = cc
split-ne-nil sep (c ∷ s) h = ground (arith, prepend-ne-nil c (split sep s))

-- `HasPrefix` at one more byte on both sides.
has_prefix-cons : (c : ℕ) (s g : Str) → has_prefix s g ≡ true → has_prefix (c ∷ s) (c ∷ g) ≡ true
unfolding has_prefix
has_prefix-cons c s g h = ground arith

has_prefix-head :
    (c : ℕ) (s : Str) (sep : ℕ) → (c == sep) ≡ true → has_prefix (c ∷ s) (sep ∷ []) ≡ true
unfolding has_prefix
has_prefix-head c s sep h = rw h

split-head_here :
    (sep c : ℕ) (s g : Str) → (c == sep) ≡ true → head? (split sep (c ∷ s)) ≡ some g → [] ≡ g
unfolding split
split-head_here sep c s g same h = ground arith

split-head_later :
    (sep c : ℕ) (s : Str) → (c == sep) ≡ false → split sep (c ∷ s) ≡ prepend c (split sep s)
unfolding split
split-head_later sep c s other = rw other

split-head_nil : (sep : ℕ) (g : Str) → head? (split sep []) ≡ some g → [] ≡ g
unfolding split
split-head_nil sep g h = cc

-- The first part is the whole text, or stands before a separator.
pub split-head :
    (sep : ℕ) (s g : Str)
    → head? (split sep s) ≡ some g
    → (s ≡ g) ⊎ (has_prefix s (g ++ sep ∷ []) ≡ true)
split-head sep [] g h = inl (split-head_nil sep g h)
split-head sep (c ∷ s) g h = elim (Bool-cases (c == sep)) [
  | inl same ↦ inr (
      subst (λ (t : Str). has_prefix (c ∷ s) (t ++ sep ∷ []) ≡ true)
        (split-head_here sep c s g same h) (has_prefix-head c s sep same))
  | inr other ↦
      later
        (head?-prepend c (split sep s) g (rw (split-head_later sep c s other) at h)
          (split-ne-nil sep s))
        (split-head sep s)
]
  where
    later :
        (g' : Str) × (head? (split sep s) ≡ some g') × (g ≡ c ∷ g')
        → ((k : Str)
            → head? (split sep s) ≡ some k
            → (s ≡ k) ⊎ (has_prefix s (k ++ sep ∷ []) ≡ true))
        → (c ∷ s ≡ g) ⊎ (has_prefix (c ∷ s) (g ++ sep ∷ []) ≡ true)
    later (g', e, q) ih = elim (ih g' e) [
      | inl whole ↦ inl (cc)
      | inr before ↦ inr (rw q (has_prefix-cons c s (g' ++ sep ∷ []) before))
    ]

strip-other : (all s p : Str) → has_prefix s p ≡ false → strip all s p ≡ all
unfolding strip has_prefix
strip-other all s [] h = cc
strip-other all [] (c ∷ p) h = refl
strip-other all (d ∷ s) (c ∷ p) h = ground (arith, strip-other all s p)

-- `TrimPrefix` of a text without the prefix, and of one with it.
pub trim_prefix-other : (s p : Str) → has_prefix s p ≡ false → trim_prefix s p ≡ s
unfolding trim_prefix
trim_prefix-other s p h = strip-other s s p h

strip-append : (all p s : Str) → strip all (p ++ s) p ≡ s
unfolding strip
strip-append all [] s = refl
strip-append all (c ∷ p) s = ground (arith, strip-append all p s)

pub trim_prefix-append : (p s : Str) → trim_prefix (p ++ s) p ≡ s
unfolding trim_prefix
trim_prefix-append p s = strip-append (p ++ s) p s

-- A text without the separator is one part, and is the first part before a separator.
pub split-whole : (sep : ℕ) (s : Str) → has_byte sep s ≡ false → split sep s ≡ s ∷ []
unfolding split has_byte prepend
split-whole sep [] h = refl
split-whole sep (c ∷ s) h = ground (arith, split-whole sep s)

pub split-append :
    (sep : ℕ) (s t : Str) → has_byte sep s ≡ false → split sep (s ++ (sep ∷ t)) ≡ s ∷ split sep t
unfolding split has_byte prepend
split-append sep [] t h = ground arith
split-append sep (c ∷ s) t h = ground (arith, split-append sep s t)
