-- ===== src/Prelude/Word.antt =====
-- Machine words of 64 bits as native numbers: the operators of `u64` and `usize` that the code
-- uses, and the bit of a word at a place, by which the laws are stated.
mod Defs
mod Native
mod Laws
mod Mask
mod Zeros
unfoldable pub use Defs.*
pub use Native.{bit_zero, bit-and, bit-or, bit_and-lt, bit_or-lt, bit_xor-lt}
pub use Laws.*
pub use Mask.*
pub use Zeros.*
