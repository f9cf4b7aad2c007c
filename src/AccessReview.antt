-- ===== src/AccessReview.antt =====
-- sentinel/access_review.py: campaigns of access reviews, their decisions, their sign-off and
-- their files.
pub mod Counts
pub mod Lifecycle
pub mod Filed
pub mod Created
pub mod Numbered
mod Tests
mod Campaign
mod Signing
mod Stored
mod Manager
unfoldable pub use Campaign.*
unfoldable pub use Signing.*
unfoldable pub use Stored.*
unfoldable pub use Manager.*
