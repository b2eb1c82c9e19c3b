-- ===== src/Text.antt =====
-- Go strings and byte slices as lists of bytes, and the functions of `strings`, `bytes` and
-- `encoding/hex` that the program calls. What the program relies on is in the children.
mod Defs
mod Split
mod Find
mod Trim
mod Decimal
unfoldable pub use Defs.*
pub use Split.*
pub use Find.*
pub use Trim.*
unfoldable pub use Decimal.*
