-- ===== src/Alp/Handlers.antt =====
-- The handlers of `AlpDemux` for one complete packet.
pub mod Segments
pub mod Datagram
pub mod Limits
pub mod Counters
use usrp_atsc.Common.{
  ℕ, zero, suc, ◌+◌, ◌-◌, ◌%◌, ◌==◌, ◌&&◌, ltb, leb, if◌then◌else◌, not, List, [], ◌∷◌, ◌++◌,
  length, get_or, set, take, drop, none, some,
}
use usrp_atsc.Crc.{verify_crc}
use usrp_atsc.Alp.Header.{AlpHeader, PacketType, ts_packet_size}
use usrp_atsc.Alp.Contexts.{
  ReassemblyContext, idle_context, find_reassembly_context, get_reassembly_context,
  release_reassembly_context,
}
use usrp_atsc.Alp.State.{
  AlpDemux, Delivery, ip_datagram, signaling, ts_packet, next64, u64, reassembly_error,
}

abbrev pub Outcome : Type 0
Outcome = AlpDemux × List Delivery

abbrev pub quiet : AlpDemux → Outcome
quiet d = (d, [])

abbrev pub crc_failed : AlpDemux → AlpDemux
crc_failed d = record d { stats = record (d.stats) { crc_errors = next64 d.stats.crc_errors } }

abbrev pub reassembly_failed : AlpDemux → AlpDemux
reassembly_failed d = record d { stats = reassembly_error d.stats }

abbrev pub release : AlpDemux → ℕ → AlpDemux
release d i = record d { reassembly = release_reassembly_context d.reassembly i }

-- A call of `ip_callback_` and the count that goes with it.
abbrev pub deliver : AlpDemux → ℕ → List ℕ → Outcome
deliver d plp_id bytes = (
  record d {
    stats = record (d.stats) { datagrams_reassembled = next64 d.stats.datagrams_reassembled };
  },
  ip_datagram plp_id bytes ∷ [],
)

-- The branch of `handle_ipv4_packet` for a packet that is not segmented.
unfoldable pub handle_whole : AlpDemux → ℕ → List ℕ → Outcome
handle_whole d plp_id payload =
    if d.ip_callback && ltb 0 (length payload)
    then if d.config.check_crc && leb 4 (length payload)
      then if verify_crc payload
        then deliver d plp_id (take (length payload - 4) payload)
        else quiet (crc_failed d)
      else deliver d plp_id payload
    else quiet d

-- `complete_reassembly` for the context at `i`.
unfoldable pub complete_reassembly : AlpDemux → ℕ → ℕ → Outcome
complete_reassembly d plp_id i =
    let buffer = (get_or d.reassembly i idle_context).buffer in
    let checked = d.config.check_crc && leb 4 (length buffer) in
    let body = if checked then take (length buffer - 4) buffer else buffer in
    if length buffer == 0
    then quiet d
    else if checked && not (verify_crc buffer)
    then quiet (release (crc_failed d) i)
    else if d.ip_callback && ltb 0 (length body)
    then (release (deliver d plp_id body).0 i, (deliver d plp_id body).1)
    else quiet (release d i)

-- The context at `i` after `payload` has been appended.
abbrev pub extend_context : ReassemblyContext → List ℕ → ReassemblyContext
extend_context ctx payload = record ctx {
  buffer = ctx.buffer ++ payload;
  expected_sequence = (ctx.expected_sequence + 1) % 256;
  total_received = (ctx.total_received + length payload) % u64;
}

-- From the check of the sequence number to the end of `handle_ipv4_packet`.
unfoldable pub append_segment : AlpDemux → ℕ → AlpHeader → List ℕ → ℕ → Outcome
append_segment d plp_id h payload i =
    let ctx = get_or d.reassembly i idle_context in
    let d' = record d { reassembly = set d.reassembly i (extend_context ctx payload) } in
    if not (h.segment_sequence == ctx.expected_sequence)
    then quiet (release (reassembly_failed d) i)
    else if ltb d.config.max_datagram_size (length ctx.buffer + length payload)
    then quiet (release (reassembly_failed d) i)
    else if h.last_segment
    then complete_reassembly d' plp_id i
    else quiet d'

-- The context of a first segment starts afresh.
abbrev pub restart_context : ReassemblyContext → ℕ → ReassemblyContext
restart_context ctx sub_stream_id = record ctx {
  buffer = [];
  expected_sequence = 0;
  sub_stream_id = sub_stream_id;
  total_received = 0;
}

-- The branch of `handle_ipv4_packet` for a segment.
unfoldable pub handle_segment : AlpDemux → ℕ → AlpHeader → List ℕ → Outcome
handle_segment d plp_id h payload =
    if h.segment_sequence == 0
    then elim (get_reassembly_context d.reassembly h.sub_stream_id) [
      | none ↦ quiet (reassembly_failed d)
      | some (i, ctxs) ↦
          append_segment
            (record d {
              reassembly =
                  set ctxs i (restart_context (get_or ctxs i idle_context) h.sub_stream_id);
            })
            plp_id h payload i
    ]
    else elim (find_reassembly_context d.reassembly h.sub_stream_id) [
      | none ↦ quiet (reassembly_failed d)
      | some i ↦ append_segment d plp_id h payload i
    ]

-- `handle_ipv4_packet`
unfoldable pub handle_ipv4_packet : AlpDemux → ℕ → AlpHeader → List ℕ → Outcome
handle_ipv4_packet d plp_id h payload =
    let s = record (d.stats) { ipv4_packets = next64 d.stats.ipv4_packets } in
    if not h.segmentation
    then handle_whole (record d { stats = s }) plp_id payload
    else handle_segment
        (record d { stats = record s { fragments_received = next64 s.fragments_received } }) plp_id
        h payload

-- `handle_signaling_packet`
unfoldable pub handle_signaling_packet : AlpDemux → ℕ → List ℕ → Outcome
handle_signaling_packet d plp_id payload = (
  record d { stats = record (d.stats) { signaling_packets = next64 d.stats.signaling_packets } },
  if d.signaling_callback && ltb 0 (length payload) then signaling plp_id payload ∷ [] else [],
)

-- The loop of `handle_ts_packet` on the bytes from `offset` on; each round takes 188 of them, so as
-- many rounds as there are bytes are enough.
unfoldable pub ts_calls : ℕ → ℕ → List ℕ → List Delivery
ts_calls zero plp_id rest = []
ts_calls (suc fuel) plp_id rest =
    if leb ts_packet_size (length rest)
    then ts_packet plp_id (take ts_packet_size rest)
      ∷ ts_calls fuel plp_id (drop ts_packet_size rest)
    else []

-- `handle_ts_packet`
unfoldable pub handle_ts_packet : AlpDemux → ℕ → List ℕ → Outcome
handle_ts_packet d plp_id payload = (
  record d { stats = record (d.stats) { ts_packets = next64 d.stats.ts_packets } },
  if d.ts_callback && leb ts_packet_size (length payload)
      then ts_calls (length payload) plp_id payload
      else [],
)

-- `process_packet`
unfoldable pub process_packet : AlpDemux → ℕ → AlpHeader → List ℕ → Outcome
process_packet d plp_id h payload = elim h.packet_type [
  | PacketType.ipv4 ↦ handle_ipv4_packet d plp_id h payload
  | PacketType.compressed ↦ handle_ipv4_packet d plp_id h payload
  | PacketType.signaling ↦ handle_signaling_packet d plp_id payload
  | PacketType.mpeg2_ts ↦ handle_ts_packet d plp_id payload
  | PacketType.extension ↦ quiet (record d {
    stats = record (d.stats) { extension_packets = next64 d.stats.extension_packets };
  })
  | _ ↦ quiet d
]
