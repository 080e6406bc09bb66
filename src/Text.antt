-- ===== src/Text.antt =====
-- The functions of Go's package `strings` that the program calls, over bytes.
mod Split
unfoldable pub use Split.*
mod Trim
unfoldable pub use Trim.*
unfoldable pub use Split.Count.*
mod Slice
unfoldable pub use Slice.*
