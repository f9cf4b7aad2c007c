-- ===== src/Python.antt =====
-- The part of Python that the program rests on: exceptions as values, the values that `json.loads`
-- returns, and the floats, which are a parameter of the model.
mod Exceptions
mod Values
mod Numbers
mod Convert
pub mod Laws
pub mod Fixed
pub use Exceptions.*
unfoldable pub use Values.*
pub use Numbers.*
unfoldable pub use Convert.*
