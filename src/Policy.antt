-- ===== src/Policy.antt =====
-- sentinel/policy: rules with conditions over metrics, and the engine that evaluates them.
pub mod Allowed
pub mod Registry
pub mod Tallied
pub mod Judged
pub mod Unmeasured
mod Tests
mod Syntax
mod Interpreter
mod Evaluator
mod Rules
mod Defaults
mod Engine
unfoldable pub use Syntax.*
pub use Interpreter.*
unfoldable pub use Evaluator.*
unfoldable pub use Rules.*
unfoldable pub use Defaults.*
unfoldable pub use Engine.*
