-- ===== src/Tenancy.antt =====
-- sentinel/tenancy.py: the context of a tenant and its folders.
pub mod Safe
pub mod Separate
mod Tests
mod Slug
mod Context
mod Storage
unfoldable pub use Slug.*
unfoldable pub use Context.*
unfoldable pub use Storage.*
