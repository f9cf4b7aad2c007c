-- ===== src/Telemetry.antt =====
-- sentinel/telemetry.py: audit events, the sinks they are sent to, and the queue between.
pub mod Recent
pub mod Rotated
pub mod Rotation
pub mod Sinks
pub mod Drained
pub mod Undelivered
pub mod Accounted
pub mod Attempts
pub mod Collected
mod Tests
mod Syslog
mod Event
mod Memory
mod File
mod Http
mod Dispatch
unfoldable pub use Syslog.*
unfoldable pub use Event.*
unfoldable pub use Memory.*
unfoldable pub use File.*
unfoldable pub use Http.*
unfoldable pub use Dispatch.*
