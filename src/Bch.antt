-- ===== src/Bch.antt =====
-- The BCH decoder over GF(2^16), lib/fec/bch_decoder.h and lib/fec/bch_decoder.cc. Field is the arithmetic
-- in tables, State the object, Bits the bits of a packed word, Syndromes, Massey and Chien the three
-- steps, and Decode the calls.
pub mod Bits
pub mod Field
pub mod State
pub mod Syndromes
pub mod Massey
pub mod Chien
pub mod Decode
pub mod Sound
pub mod Faults
pub mod Stale
mod Tests
