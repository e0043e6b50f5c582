-- ===== src/Bits.antt =====
-- Laws of the bitwise operations at variables.
mod Step
mod Width
mod Digit
unfoldable pub use Width.{and_not}
pub use Width.{bit_or-lt, bit_xor-lt, bit_and-le, and_not-le, and_not_step}
pub use Digit.*
pub use Step.{bit_and_step, bit_or_step, bit_xor_step}
