-- ===== src/Alp/Tests.antt =====
-- The theorems on the demultiplexer at concrete packets, and runs of the code.
use usrp_atsc.Common.{
  ℕ, ◌%◌, ◌^◌, ◌≡◌, refl, arith, true, false, List, [], ◌∷◌, ◌++◌, some, inl, set, replicate,
}
use usrp_atsc.Crc.{compute_crc32}
use usrp_atsc.Crc.Division.{be32_bytes}
use usrp_atsc.Alp.Header.{PacketType, parse_header, is_reserved}
use usrp_atsc.Alp.Header.Bounds.{IsBounded, parse_header-IsBounded}
use usrp_atsc.Alp.Header.RoundTrip.{Layout, single, segment, encode, header_of, parse_header-encode}
use usrp_atsc.Alp.Contexts.{
  ReassemblyContext, idle_context, get_reassembly_context, find_reassembly_context,
  find_free_context,
}
use usrp_atsc.Alp.State.{
  no_stats, AlpDemux, Delivery, ip_datagram, default_config, new_demux, set_ip_callback,
}
use usrp_atsc.Alp.Handlers.{process_packet}
use usrp_atsc.Alp.Handlers.Limits.{IsLimited, process_packet-IsLimited}
use usrp_atsc.Alp.Handlers.Segments.{segment_header}
use usrp_atsc.Alp.Handlers.Datagram.{feed, feed-protected}
use usrp_atsc.Alp.Process.{process}
use usrp_atsc.Alp.Process.Total.{process_total}
use usrp_atsc.Alp.Process.Stream.{Packet, handle_all, stream, process-stream, process-split_header}

abbrev segment_layout : Layout
segment_layout = segment false 300 5 true 77

parse_header-encode_example :
    parse_header (encode PacketType.ipv4 segment_layout ++ 1 ∷ 2 ∷ [])
    ≡ some (header_of PacketType.ipv4 segment_layout)
unfolding is_reserved
parse_header-encode_example =
    parse_header-encode PacketType.ipv4 segment_layout (1 ∷ 2 ∷ []) refl (omega arith)

-- A signaling packet with two bytes of payload.
abbrev hello : Packet
hello = record { kind = PacketType.signaling; layout = single 2; payload = 8 ∷ 9 ∷ [] }

abbrev hello_bytes : List ℕ
hello_bytes = 128 ∷ 4 ∷ 8 ∷ 9 ∷ []

parse_header-IsBounded_example : IsBounded hello_bytes (header_of PacketType.signaling (single 2))
unfolding encode is_reserved
parse_header-IsBounded_example =
    parse_header-IsBounded hello_bytes (header_of PacketType.signaling (single 2)) (omega arith)
      (parse_header-encode PacketType.signaling (single 2) (8 ∷ 9 ∷ []) refl (omega arith))

abbrev demux : AlpDemux
unfolding new_demux set_ip_callback
demux = set_ip_callback (new_demux default_config)

process_total_example : (r : AlpDemux × ℕ × List Delivery) × (process demux 3 hello_bytes ≡ some r)
process_total_example = process_total demux 3 hello_bytes

-- What `process` starts from, with the packet and the first byte of another one.
abbrev started : AlpDemux
started = record demux { current_plp_id = 3; input_buffer = stream (hello ∷ []) (128 ∷ []) }

process-stream_example :
    (d' : AlpDemux) × (process demux 3 (hello_bytes ++ 128 ∷ [])
      ≡ some (d', 1, (handle_all started 3 (hello ∷ [])).1))
    × (d'.input_buffer ≡ 128 ∷ [])
    × (record d' { last_check = 0 } ≡ record ((handle_all started 3 (hello ∷ [])).0) {
      input_buffer = 128 ∷ [];
      last_check = 0;
    })
    × (d'.stats.packets_received % 2 ^ 64 ≡ 1)
    × (d'.packet_counter % 2 ^ 64 ≡ 1)
unfolding encode is_reserved header_of new_demux set_ip_callback
process-stream_example =
    process-stream demux 3 128 (4 ∷ 8 ∷ 9 ∷ 128 ∷ []) (hello ∷ []) (128 ∷ []) refl
      (record { not_reserved = refl; fits = omega arith; payload_length = refl }, tt)
      (inl (omega arith))

process-split_header_example :
    (d' : AlpDemux) × (process demux 0 (0x90 ∷ 0 ∷ []) ≡ some (d', 0, []))
    × (d'.input_buffer ≡ 0 ∷ [])
    × (d'.stats.header_errors ≡ 1)
    × (record d' { last_check = 0 } ≡ record demux {
      current_plp_id = 0;
      input_buffer = 0 ∷ [];
      stats = record no_stats { header_errors = 1 };
      last_check = 0;
    })
unfolding new_demux set_ip_callback
process-split_header_example = process-split_header demux 0 0x90 0 refl refl

abbrev datagram : List ℕ
datagram = 1 ∷ 2 ∷ 3 ∷ []

-- What `get_reassembly_context` makes of the contexts of a new object.
abbrev one_context : List ReassemblyContext
one_context =
    set (replicate 16 idle_context) 0 (record idle_context { active = true; sub_stream_id = 77 })

feed-protected_example :
    (feed demux 3 77 0 (1 ∷ 2 ∷ []) ((3 ∷ be32_bytes (compute_crc32 datagram)) ∷ [])).1
    ≡ ip_datagram 3 datagram ∷ []
unfolding new_demux set_ip_callback get_reassembly_context find_reassembly_context find_free_context
feed-protected_example =
    feed-protected demux 3 77 0 one_context (1 ∷ 2 ∷ [])
      ((3 ∷ be32_bytes (compute_crc32 datagram)) ∷ []) datagram refl
      (record { checks = refl; calls = refl; room = omega arith }) (omega arith) (omega arith)
      (omega arith) refl

process_packet-IsLimited_example :
    IsLimited (process_packet demux 3 (segment_header 77 0 false 2) (1 ∷ 2 ∷ [])).0
unfolding new_demux set_ip_callback
process_packet-IsLimited_example =
    process_packet-IsLimited demux 3 (segment_header 77 0 false 2) (1 ∷ 2 ∷ [])
      (record { contexts = refl; within = omega arith })
