-- ===== src/Auth.antt =====
-- sentinel/auth.py: permissions of users and signed tokens.
pub mod Clearance
pub mod Parts
pub mod Issued
pub mod Signed
pub mod Claims
mod Tests
mod Identity
mod Chars
mod Secret
mod Token
unfoldable pub use Identity.*
unfoldable pub use Chars.*
unfoldable pub use Secret.*
unfoldable pub use Token.*
