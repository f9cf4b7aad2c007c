-- ===== src/Drift.antt =====
-- sentinel/drift.py: what got worse between two runs of the collectors.
pub mod Watched
pub mod Single
pub mod Reported
pub mod Baseline
mod Tests
mod Items
mod Metrics
mod Loading
mod Detection
pub use Items.*
unfoldable pub use Metrics.*
unfoldable pub use Loading.*
unfoldable pub use Detection.*
