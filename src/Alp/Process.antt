-- ===== src/Alp/Process.antt =====
-- `AlpDemux::process`: the loop over the input buffer.
-- The loop is on the bytes from `offset` on, which are also what stays in the buffer at the end. Each
-- round drops one byte or more, so that fuel above the number of bytes is enough (`Process.Total`).
pub mod Total
pub mod Stream
use usrp_atsc.Common.{
  ℕ, zero, suc, ◌+◌, ltb, if◌then◌else◌, Bool, true, false, List, [], ◌∷◌, ◌++◌, length, take, drop,
  Option, none, some,
}
use mathlib.Core.Option
use usrp_atsc.Alp.Header.{AlpHeader, parse_header, min_header_bytes}
use usrp_atsc.Alp.State.{AlpDemux, Delivery, next64, check_reassembly_timeouts}
use usrp_atsc.Alp.Handlers.{process_packet}

-- Where the loop stopped: the object, the bytes that are left, the number of packets and the calls.
pub record Drained : Type 0 where
  pub demux : AlpDemux
  pub rest : List ℕ
  pub packets_parsed : ℕ
  pub calls : List Delivery

abbrev pub header_failed : AlpDemux → AlpDemux
header_failed d = record d {
  stats = record (d.stats) { header_errors = next64 d.stats.header_errors };
}

-- The counters that are advanced after a packet.
abbrev pub packet_done : AlpDemux → AlpDemux
packet_done d = record d {
  stats = record (d.stats) { packets_received = next64 d.stats.packets_received };
  packet_counter = next64 d.packet_counter;
}

abbrev pub after_packet : List Delivery → Drained → Drained
after_packet calls r = record r { packets_parsed = r.packets_parsed + 1; calls = calls ++ r.calls }

abbrev pub stopped : AlpDemux → List ℕ → Option Drained
stopped d bytes = some (record { demux = d; rest = bytes; packets_parsed = 0; calls = [] })

-- `none` when the fuel runs out. The loop's own test and the test for a minimum header both stop it.
unfoldable pub drain : ℕ → AlpDemux → ℕ → List ℕ → Option Drained
drain zero d plp_id bytes = none
drain (suc fuel) d plp_id bytes = elim (ltb (length bytes) min_header_bytes) [
  | true ↦ stopped d bytes
  | false ↦ elim (parse_header bytes) [
    | none ↦ drain fuel (header_failed d) plp_id (drop 1 bytes)
    | some h ↦ elim (ltb (length bytes) (h.header_bytes + h.len)) [
      | true ↦ stopped d bytes
      | false ↦
          let payload = take h.len (drop h.header_bytes bytes) in
          let outcome = process_packet d plp_id h payload in
          Option.map (after_packet outcome.1)
            (drain fuel (packet_done outcome.0) plp_id (drop (h.header_bytes + h.len) bytes))
    ]
  ]
]

-- What `process` leaves in the object, with its result and the calls.
abbrev pub finished : Drained → AlpDemux × ℕ × List Delivery
finished r = (
  check_reassembly_timeouts (record (r.demux) { input_buffer = r.rest }),
  r.packets_parsed,
  r.calls,
)

-- `process`. A null pointer is the empty list here.
unfoldable pub process : AlpDemux → ℕ → List ℕ → Option (AlpDemux × ℕ × List Delivery)
process d plp_id [] = some (d, 0, [])
process d plp_id (byte ∷ bytes) =
    let buffer = d.input_buffer ++ byte ∷ bytes in
    Option.map finished (
      drain (suc (length buffer)) (record d { current_plp_id = plp_id; input_buffer = buffer })
        plp_id buffer)
