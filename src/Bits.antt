-- ===== src/Bits.antt =====
-- Bits of words, of limbs and of integers in two's complement, which the bit operations of
-- src/ikarus-numerics.c work on.
pub mod Words
pub mod Values
