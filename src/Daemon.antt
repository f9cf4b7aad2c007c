-- ===== src/Daemon.antt =====
-- sentinel/daemon.py: collection in the background.
pub mod Threads
pub mod Orderly
pub mod Single
pub mod Piled
mod Tests
mod State
mod Cycle
unfoldable pub use State.*
unfoldable pub use Cycle.*
