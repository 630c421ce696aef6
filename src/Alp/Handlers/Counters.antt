-- ===== src/Alp/Handlers/Counters.antt =====
-- What the handlers leave to the loop of `process`: the two counters of packets.
use usrp_atsc.Common.{ℕ, ◌≡◌, Bool-cases, arith, List, get_or, set, inl, inr, Option-cases}
use usrp_atsc.Alp.Header.{AlpHeader}
use usrp_atsc.Alp.Contexts.{idle_context, find_reassembly_context, get_reassembly_context}
use usrp_atsc.Alp.State.{AlpDemux, next64}
use usrp_atsc.Alp.Handlers.{
  process_packet, handle_ipv4_packet, handle_segment, handle_whole, handle_signaling_packet,
  handle_ts_packet, append_segment, complete_reassembly, restart_context, extend_context,
}

pub record KeepsCounters (d d' : AlpDemux) : Type 0 where
  pub received : d'.stats.packets_received ≡ d.stats.packets_received
  pub counter : d'.packet_counter ≡ d.packet_counter

complete_reassembly-KeepsCounters :
    (d : AlpDemux) (plp_id i : ℕ) → KeepsCounters d (complete_reassembly d plp_id i).0
unfolding complete_reassembly
complete_reassembly-KeepsCounters d plp_id i = ground arith

append_segment-KeepsCounters :
    (d : AlpDemux) (plp_id i : ℕ) (h : AlpHeader) (payload : List ℕ)
    → KeepsCounters d (append_segment d plp_id h payload i).0
unfolding append_segment
append_segment-KeepsCounters d plp_id i h payload = ground (
  arith,
  complete_reassembly-KeepsCounters
      (record d {
        reassembly =
            set d.reassembly i (extend_context (get_or d.reassembly i idle_context) payload);
      })
      plp_id i,
)

handle_segment-KeepsCounters :
    (d : AlpDemux) (plp_id : ℕ) (h : AlpHeader) (payload : List ℕ)
    → KeepsCounters d (handle_segment d plp_id h payload).0
unfolding handle_segment
handle_segment-KeepsCounters d plp_id h payload =
    elim (Option-cases (get_reassembly_context d.reassembly h.sub_stream_id)) [
      | inl p ↦ elim (Option-cases (find_reassembly_context d.reassembly h.sub_stream_id)) [
        | inl q ↦ ground arith
        | inr (j, q) ↦ ground (arith, append_segment-KeepsCounters d plp_id j h payload)
      ]
      | inr ((i, ctxs), p) ↦
          let c = restart_context (get_or ctxs i idle_context) h.sub_stream_id in
          let d' = record d { reassembly = set ctxs i c } in
          elim (Option-cases (find_reassembly_context d.reassembly h.sub_stream_id)) [
            | inl q ↦ ground (arith, append_segment-KeepsCounters d' plp_id i h payload)
            | inr (j, q) ↦ ground (
              arith,
              append_segment-KeepsCounters d plp_id j h payload,
              append_segment-KeepsCounters d' plp_id i h payload,
            )
          ]
    ]

handle_ipv4_packet-KeepsCounters :
    (d : AlpDemux) (plp_id : ℕ) (h : AlpHeader) (payload : List ℕ)
    → KeepsCounters d (handle_ipv4_packet d plp_id h payload).0
unfolding handle_ipv4_packet handle_whole
handle_ipv4_packet-KeepsCounters d plp_id h payload = elim (Bool-cases h.segmentation) [
  | inl p ↦ ground (arith, handle_segment-KeepsCounters segmented plp_id h payload)
  | inr p ↦ ground arith
]
  where
    segmented : AlpDemux
    segmented = record d {
      stats = record (d.stats) {
        ipv4_packets = next64 d.stats.ipv4_packets;
        fragments_received = next64 d.stats.fragments_received;
      };
    }

pub process_packet-KeepsCounters :
    (d : AlpDemux) (plp_id : ℕ) (h : AlpHeader) (payload : List ℕ)
    → KeepsCounters d (process_packet d plp_id h payload).0
unfolding process_packet handle_signaling_packet handle_ts_packet
process_packet-KeepsCounters d plp_id h payload =
    ground (arith, handle_ipv4_packet-KeepsCounters d plp_id h payload)
