-- ===== src/Prelude.antt =====
-- The names that every module shares: the libraries', passed on, the Boolean tests on the native
-- numbers, equality as an interface, lists measured by native numbers, and Go strings as bytes.
mod Tests
mod Lists
mod Equality
mod Text
mod Branches
pub use Tests.{ltb, leb, ltb→lt, lt→ltb, leb→le, tests, if◌then◌else◌, Bool-cases, Option-cases}
pub use Lists.*
pub use Equality.*
unfoldable pub use Equality.{list_beq}
pub use Branches.{if-branches, option-branches}
pub use Text.{
  split-ne-nil, split-head, trim_prefix-other, trim_prefix-append, split-whole, split-append,
}
unfoldable pub use Text.{Str, codes, split, join, has_prefix, trim_prefix, has_byte}
pub use Prim.Native.Nat.{ℕ, zero, suc, ◌+◌, ◌-◌, ◌*◌, ◌/◌, ◌%◌, ◌^◌, ◌≤◌, ◌<◌}
pub use mathlib.Core.Path.{◌≡◌, refl, sym, ap, ◌∙◌, subst}
pub use mathlib.Core.Logic.{◌≢◌, ◌↔◌, ◌⊎◌, inl, inr}
pub use mathlib.Core.Bool.{Bool, true, false, ◌&&◌, ◌||◌, not}
pub use mathlib.Core.Option.{Option, none, some}
pub use mathlib.Core.List.{List, [], ◌∷◌, ◌++◌, map, append-nil, append_assoc}
pub use native.Mathlib.Omega.{arith}
