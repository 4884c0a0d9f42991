-- ===== src/Base/Text.antt =====
-- What the code uses of Go's packages `strings` and `unicode`. A text is its code points; Go reads
-- the same text as UTF-8 bytes, which `len` counts.
mod Split
mod Trim
pub mod SplitLaws
unfoldable pub use Split.*
unfoldable pub use Trim.*
