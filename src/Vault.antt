-- ===== src/Vault.antt =====
-- sentinel/vault.py: the ledger of sealed evidence. SHA-256 over texts is a parameter, and so is
-- the JSON codec of a block; a tenant's ledger file is the list of its lines, each of which ends in
-- a line break.
mod Merkle
mod Block
mod Disk
mod Ledger
mod Seal
mod Verify
pub mod Rounds
pub mod Binding
pub mod Linked
pub mod Splits
pub mod Sealed
pub mod Tampered
pub mod Tenants
mod Tests
unfoldable pub use Merkle.*
unfoldable pub use Block.*
unfoldable pub use Disk.*
unfoldable pub use Ledger.*
unfoldable pub use Seal.*
unfoldable pub use Verify.*
