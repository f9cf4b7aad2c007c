-- ===== src/AuditRooms.antt =====
-- sentinel/audit_room.py: rooms for external auditors, who may enter them, and the evidence they show.
pub mod Filed
pub mod Entered
pub mod Satisfied
pub mod Reached
mod Tests
mod Catalog
mod Room
mod Manager
mod Crosswalk
unfoldable pub use Catalog.*
unfoldable pub use Room.*
unfoldable pub use Manager.*
unfoldable pub use Crosswalk.*
