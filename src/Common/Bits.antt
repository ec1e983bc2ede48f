-- ===== src/Common/Bits.antt =====
-- Laws of the native bit operations at variables: `^` is the sum of bit vectors over two
-- elements, shifts and low masks are products and remainders by powers of two.
mod Step
mod Xor
mod Masks
mod At
pub use Step.{bit_or_step, bit_and_step, bit_xor_step}
pub use Xor.*
pub use Masks.*
unfoldable pub use At.{bit_at}
pub use At.{bit_at-bit_and, bit_at-bit_or, bit_at-mask, bit_at-complement}
