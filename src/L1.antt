-- ===== src/L1.antt =====
-- The decoder of the L1 preamble, lib/framing/l1_decoder.h and lib/framing/l1_decoder.cc.
-- Bits reads fields, Fields maps indices to the enumerations, Unpack reads L1-Pre and L1-Post, and
-- Decode is the rest of the class. A read past the end of the decoded bytes is the fault `none`.
pub mod Bits
pub mod Fields
pub mod Unpack
pub mod Decode
mod Tests
