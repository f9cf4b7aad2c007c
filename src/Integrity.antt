-- ===== src/Integrity.antt =====
-- sentinel/integrity.py: manifests of evidence folders.
pub mod Issues
pub mod Intact
pub mod Written
pub mod Verdict
pub mod Artifact
mod Tests
mod Folder
mod Manifest
unfoldable pub use Folder.*
unfoldable pub use Manifest.*
