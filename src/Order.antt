-- ===== src/Order.antt =====
-- Sorting by a strict Boolean order, as `sort.Slice` and `sort.Strings` do on distinct keys, and
-- the byte order on strings.
mod Defs
pub mod Strings
pub mod Sorting
pub mod Keyed
unfoldable pub use Defs.{str_ltb, insert, sort}
