-- ===== src/Lib.antt =====
-- The software receiver for ATSC 3.0: framing, signalling, configuration, frame synchronization,
-- deinterleaving, BCH codes, the matrices of LDPC codes, service signalling, and the supervision of lock.
--
-- The receiver turns samples into datagrams. The frame synchronizer finds the frames in the samples;
-- the L1 decoder reads the preamble of a frame and builds the configuration of the receiver, which is
-- distributed to the blocks; the frequency, time and cell deinterleavers put the carriers and cells of
-- the frame back in order; after demapping and error correction, the ALP demultiplexer takes the bytes
-- of a physical layer pipe apart into packets, reassembles segmented datagrams and hands them to
-- callbacks. The service catalog keeps the services that the signalling announces, the lock supervisor
-- resets the receiver when its blocks report that lock is lost, and a ring buffer hands decoded frames
-- from a decoder thread to playback.
--
-- The files and what they are about:
--   Common   lists over native numbers, Boolean tests, bitwise operations, and chains of steps that may
--            fail.
--   Crc      the CRC-32 of lib/framing/alp_demux.cc (`AlpDemux::compute_crc32`, with its stored table)
--            and of lib/framing/l1_decoder.cc (`L1Decoder::compute_crc32`, with a table that is filled
--            at run time).
--   Alp      lib/framing/alp_demux.h and lib/framing/alp_demux.cc, class `AlpDemux`. Header is
--            `parse_header`, Contexts the table of reassembly contexts, State the object, Handlers the
--            packet handlers, and Process the loop of `process`.
--   L1       lib/framing/l1_decoder.h and lib/framing/l1_decoder.cc, class `L1Decoder`. Bits is
--            `extract_bits`, `fec_decode` and `validate_crc`, Fields the records and the index maps,
--            Unpack the L1-Pre and L1-Post blocks, Decode the calls of the class.
--   Config   lib/config/atsc3_config.h: the configuration and its derived parameters.
--            Config.Bus is lib/config/config_bus.cc, class `ConfigBus`.
--   Catalog  lib/framing/service_catalog.h and lib/framing/service_catalog.cc, class `ServiceCatalog`.
--            Spec is the map it promises; Table, Update, Insert, Removal, Keeps and Erase follow the calls
--            on the array, and Refine puts them together.
--   Ofdm     TimeDeinterleaver is lib/ofdm/time_deinterleaver.h and lib/ofdm/time_deinterleaver.cc. Cell is
--            lib/ofdm/cell_deinterleaver.h and lib/ofdm/cell_deinterleaver.cc, Freq is
--            lib/ofdm/freq_deinterleaver.h and lib/ofdm/freq_deinterleaver.cc, and Permutation the table and
--            the gather that both sources have.
--   Bch      lib/fec/bch_decoder.h and lib/fec/bch_decoder.cc, class `BchDecoder`. Field is the arithmetic in
--            tables, Syndromes, Massey and Chien the three steps, Decode the calls; Sound, Faults and Stale
--            are about successes, accesses out of bounds and what is left of an earlier word.
--   Route    lib/framing/route_parser.h and lib/framing/route_parser.cc, class `RouteParser`. Lct is the
--            header, Text the scanning of XML, Slt and Mpd the documents, Process the calls, which update a
--            catalog; Spec is what they promise, and Tags where tags stand.
--   Ldpc     lib/fec/ldpc_matrix.h and lib/fec/ldpc_matrix.cc, class `LdpcMatrixGenerator`, with the code
--            parameters of lib/fec/ldpc_decoder.cc and the type `SparseMatrix` of lib/fec/ldpc_decoder.h.
--   LockSupervisor  blocks/atsc3_lock_supervisor_impl.cc, class `lock_supervisor_impl`.
--   RingBuffer  av/ring_buffer.h, class template `RingBuffer`, with the steps of its two threads.
--   Sync     lib/sync/frame_sync.h and lib/sync/frame_sync.cc, class `FrameSync`. Correlate is the
--            correlation with the preamble, State what surrounds `process`, and Process the state
--            machine.
--
-- Conventions. An operation takes the object and gives the object that it leaves, with its result and
-- the calls of callbacks that it makes, in order. A byte, a counter and an index are natural numbers;
-- sums of counters wrap around at the width of their type. A read past the end of a buffer, where the
-- code has no test, is `none` in the L1 decoder, the BCH decoder, the ROUTE parser and the deinterleavers.
-- The threads of the ring buffer are steps of a relation, in any order; elsewhere a call is one step.
--
-- Fuel. The loop of `AlpDemux::process` has one round more than the buffer has bytes, and every round
-- but the last takes a byte or more. The coarse search of `FrameSync` has two rounds more than there are
-- symbols, which is enough where its step is not 0. The search for the best offset has as many rounds
-- as there are symbols, which is no less than its bound on the offsets. The gather in blocks has a round
-- for every index, and its blocks are not empty; `count_bits` has the 64 rounds of its type. `find_tag`
-- and the loop over the services have a round for each byte of the text, and each round goes on with a
-- shorter text.
--
-- The arithmetic of `double` is a parameter of the frame synchronizer (`FloatOps`), of which nothing is
-- assumed. Not modelled are the parts that are mainly signal processing in floating point (FFT,
-- equalizer, demapper, LDPC decoding, metrics), the other wrappers for GNU Radio, and those for Python, GStreamer
-- and radio hardware.
pub mod Alp
pub mod Bch
pub mod Catalog
pub mod Common
pub mod Config
pub mod Crc
pub mod L1
pub mod Ldpc
pub mod LockSupervisor
pub mod Ofdm
pub mod RingBuffer
pub mod Route
pub mod Sync
