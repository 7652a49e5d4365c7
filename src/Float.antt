-- ===== src/Float.antt =====
-- `f32`, a primitive type of the language: the operations that the source uses of it are an
-- interface, their documented behaviour a record of laws, and fixed-point numbers an instance.
mod Defs
mod Laws
mod Point
mod PointLaws
pub use Defs.*
pub use Laws.*
pub use Point.*
pub use PointLaws.*
