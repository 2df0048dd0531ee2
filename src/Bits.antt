-- ===== src/Bits.antt =====
-- The bit operations of C on `uint32_t`, and their laws.
mod Step
mod Digit
mod Ops
mod Laws
mod Shift
mod Field
mod Mask
mod Value
mod Single
pub use Digit.*
pub use Ops.*
pub use Laws.*
pub use Shift.*
pub use Field.*
pub use Mask.*
pub use Value.*
pub use Single.*
