-- ===== src/Ldpc.antt =====
-- The parity check matrices of the LDPC codes, lib/fec/ldpc_matrix.h and lib/fec/ldpc_matrix.cc. Base makes the
-- matrix of blocks, Expand the sparse matrix; Occurrences, Transposed
-- and Generate are about its rows and columns.
pub mod Base
pub mod Expand
pub mod Occurrences
pub mod Transposed
pub mod Generate
mod Tests
