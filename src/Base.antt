-- ===== src/Base.antt =====
-- What the other modules share: the libraries' names, passed on, Boolean tests, results, equality,
-- lists measured by native numbers, signed integers, texts as lists of bytes, and sorting.
mod Core
mod Equality
mod Lists
pub mod Int
pub mod Text
pub mod TextLemmas
pub mod Decimal
pub mod Sort
pub mod TextOrder
pub mod Maps
pub mod Weights
unfoldable pub use Core.*
unfoldable pub use Equality.*
unfoldable pub use Lists.*
