-- ===== src/Security.antt =====
-- sentinel/security.py: the encryption of evidence, and cells of CSV files.
pub mod Decrypted
mod Tests
mod Blob
mod Cells
unfoldable pub use Blob.*
unfoldable pub use Cells.*
