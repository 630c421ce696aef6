-- ===== src/Ofdm.antt =====
-- The deinterleavers, lib/ofdm/time_deinterleaver.h and .cc, cell_deinterleaver.h and .cc, and
-- freq_deinterleaver.h and .cc.
pub mod TimeDeinterleaver
pub mod Permutation
pub mod Cell
pub mod Freq
mod Tests
