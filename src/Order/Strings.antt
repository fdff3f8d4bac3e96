-- ===== src/Order/Strings.antt =====
-- The byte order on strings is a strict total order.
use pocket_coder.Prelude.{true, false, [], ◌∷◌, Str, ◌≡◌, refl, arith}
use pocket_coder.Order.Defs.{str_ltb}

pub str_ltb_irrefl : (s : Str) → str_ltb s s ≡ false
unfolding str_ltb
str_ltb_irrefl [] = refl
str_ltb_irrefl (x ∷ s) = ground (arith, str_ltb_irrefl s)

pub str_ltb_trans : (s t u : Str) → str_ltb s t ≡ true → str_ltb t u ≡ true → str_ltb s u ≡ true
unfolding str_ltb
str_ltb_trans [] [] u h k = ground arith
str_ltb_trans [] (y ∷ t) [] h k = ground arith
str_ltb_trans [] (y ∷ t) (z ∷ u) h k = refl
str_ltb_trans (x ∷ s) [] u h k = ground arith
str_ltb_trans (x ∷ s) (y ∷ t) [] h k = ground arith
str_ltb_trans (x ∷ s) (y ∷ t) (z ∷ u) h k = ground (arith, str_ltb_trans s t u)

pub str_ltb_total : (s t : Str) → str_ltb s t ≡ false → str_ltb t s ≡ false → s ≡ t
unfolding str_ltb
str_ltb_total [] [] h k = refl
str_ltb_total [] (y ∷ t) h k = ground arith
str_ltb_total (x ∷ s) [] h k = ground arith
str_ltb_total (x ∷ s) (y ∷ t) h k = ground (arith, str_ltb_total s t)
