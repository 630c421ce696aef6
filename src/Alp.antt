-- ===== src/Alp.antt =====
-- The ALP demultiplexer, lib/framing/alp_demux.h and lib/framing/alp_demux.cc.
-- Header reads packet headers, Contexts keeps the reassembly contexts, State is the object with its
-- statistics, Handlers treats one packet, and Process walks the input buffer.
pub mod Header
pub mod Contexts
pub mod State
pub mod Handlers
pub mod Process
mod Tests
