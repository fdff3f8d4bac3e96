-- ===== src/Map.antt =====
-- A Go map as an association list with at most one entry for each key. Clients read it by `get`
-- and reason by the laws; a loop over a map walks `Map K V` as a list, in some order.
mod Defs
pub mod Laws
pub mod Counting
pub use Defs.{Map, get_or, has}
unfoldable pub use Defs.{get, put, del}
