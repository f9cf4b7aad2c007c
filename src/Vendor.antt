-- ===== src/Vendor.antt =====
-- sentinel/vendor_risk.py: the risk of vendors and their register.
pub mod Risk
pub mod Saved
mod Tests
mod Questionnaire
mod Assessment
mod Register
unfoldable pub use Questionnaire.*
unfoldable pub use Assessment.*
unfoldable pub use Register.*
