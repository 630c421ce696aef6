-- ===== src/Alp/Process/Stream.antt =====
-- The loop of `process` on a stream of whole packets.
use usrp_atsc.Common.{
  ℕ, zero, suc, ◌+◌, ◌%◌, ◌^◌, ◌<◌, ◌≤◌, ◌≡◌, ap, ◌∙◌, arith, List, [], ◌∷◌, ◌++◌, length, take,
  drop, length-append, drop-add, none, some, true, false, ◌⊎◌, take-length-append,
  drop-length-append,
}
use mathlib.Core.Option
use usrp_atsc.Alp.Header.{parse_header, AlpHeader, PacketType, is_reserved, bit}
use usrp_atsc.Alp.Header.Bounds.{header_bytes-ge}
use usrp_atsc.Alp.Header.RoundTrip.{
  Layout, Fits, encode, header_of, parse_header-encode, length-encode, length-encode-ge,
}
use usrp_atsc.Alp.State.{AlpDemux, Delivery, check_reassembly_timeouts}
use usrp_atsc.Alp.Handlers.{process_packet}
use usrp_atsc.Alp.Handlers.Counters.{process_packet-KeepsCounters}
use usrp_atsc.Alp.Process.{Drained, drain, process, packet_done, after_packet, header_failed}

pub record Packet : Type 0 where
  pub kind : PacketType
  pub layout : Layout
  pub payload : List ℕ

abbrev pub header : Packet → AlpHeader
header p = header_of p.kind p.layout

-- The fields fit the layout, and the length field is that of the payload.
pub record IsWellFormed (p : Packet) : Type 0 where
  pub not_reserved : is_reserved p.kind ≡ false
  pub fits : Fits p.layout
  pub payload_length : length p.payload ≡ (header p).len

abbrev pub AllWellFormed : List Packet → Type 0
AllWellFormed [] = Unit {0}
AllWellFormed (p ∷ ps) = IsWellFormed p × AllWellFormed ps

-- The bytes of the packets, one after the other, and then `tail`.
abbrev pub stream : List Packet → List ℕ → List ℕ
stream [] tail = tail
stream (p ∷ ps) tail = encode p.kind p.layout ++ (p.payload ++ stream ps tail)

-- The bytes from which the loop waits for more: fewer than two, or a header that can be read with a
-- part of its payload.
abbrev pub Waits : List ℕ → Type 0
Waits tail =
    (length tail < 2)
    ⊎ ((h : AlpHeader) × (parse_header tail ≡ some h) × (length tail < h.header_bytes + h.len))

-- Each packet goes to its handler, in order, and is counted after it.
abbrev pub handle_all : AlpDemux → ℕ → List Packet → AlpDemux × List Delivery
handle_all d plp_id [] = (d, [])
handle_all d plp_id (p ∷ ps) =
    let outcome = process_packet d plp_id (header p) p.payload in
    let counted : AlpDemux = record (outcome.0) {
      stats = record (outcome.0.stats) {
        packets_received = (outcome.0.stats.packets_received + 1) % 2 ^ 64;
      };
      packet_counter = (outcome.0.packet_counter + 1) % 2 ^ 64;
    } in
    let later = handle_all counted plp_id ps in (later.0, outcome.1 ++ later.1)

-- The counters advance by the number of packets, as no handler touches them.
handle_all-counts :
    (d : AlpDemux) (plp_id : ℕ) (ps : List Packet)
    → ((handle_all d plp_id ps).0.stats.packets_received % 2 ^ 64
        ≡ (d.stats.packets_received + length ps) % 2 ^ 64)
      × ((handle_all d plp_id ps).0.packet_counter % 2 ^ 64
          ≡ (d.packet_counter + length ps) % 2 ^ 64)
handle_all-counts d plp_id [] = (omega arith, omega arith)
handle_all-counts d plp_id (p ∷ ps) =
    let outcome = process_packet d plp_id (header p) p.payload in
    let kept = process_packet-KeepsCounters d plp_id (header p) p.payload in
    let later = handle_all-counts (packet_done outcome.0) plp_id ps in
    (omega (arith, kept.received, later.0), omega (arith, kept.counter, later.1))

abbrev pub drained : AlpDemux → ℕ → List Packet → List ℕ → Drained
drained d plp_id ps tail = record {
  demux = (handle_all d plp_id ps).0;
  rest = tail;
  packets_parsed = length ps;
  calls = (handle_all d plp_id ps).1;
}

frame_length :
    (p : Packet) (rest : List ℕ)
    → length rest + 2 ≤ length (encode p.kind p.layout ++ (p.payload ++ rest))
frame_length p rest = omega (
  arith,
  length-append (encode p.kind p.layout) (p.payload ++ rest),
  length-append p.payload rest,
  length-encode-ge p.kind p.layout,
)

drain-Waits :
    (fuel : ℕ) (d : AlpDemux) (plp_id : ℕ) (tail : List ℕ)
    → Waits tail
    → drain (suc fuel) d plp_id tail ≡ some (drained d plp_id [] tail)
unfolding drain
drain-Waits fuel d plp_id tail w = ground arith

-- One round of the loop, at a packet that is complete.
drain-packet :
    (fuel : ℕ) (d : AlpDemux) (plp_id : ℕ) (p : Packet) (rest : List ℕ)
    → IsWellFormed p
    → let outcome = process_packet d plp_id (header p) p.payload in
      drain (suc fuel) d plp_id (encode p.kind p.layout ++ (p.payload ++ rest))
      ≡ Option.map (after_packet outcome.1) (drain fuel (packet_done outcome.0) plp_id rest)
unfolding drain
drain-packet fuel d plp_id p rest w =
    ground (arith, parsed, header_bytes-ge bytes hd parsed, size, payload_read, rest_read)
  where
    hd : AlpHeader
    hd = header p

    head : List ℕ
    head = encode p.kind p.layout

    bytes : List ℕ
    bytes = head ++ (p.payload ++ rest)

    parsed : parse_header bytes ≡ some hd
    parsed = parse_header-encode p.kind p.layout (p.payload ++ rest) w.not_reserved w.fits

    head_length : length head ≡ hd.header_bytes
    head_length = length-encode p.kind p.layout

    size : length bytes ≡ hd.header_bytes + hd.len + length rest
    size = omega (
      arith,
      length-append head (p.payload ++ rest),
      length-append p.payload rest,
      head_length,
      w.payload_length,
    )

    behind_header : drop hd.header_bytes bytes ≡ p.payload ++ rest
    behind_header = rw (← head_length) (drop-length-append head (p.payload ++ rest))

    payload_read : take hd.len (drop hd.header_bytes bytes) ≡ p.payload
    payload_read = rw (behind_header, ← w.payload_length) (take-length-append p.payload rest)

    rest_read : drop (hd.header_bytes + hd.len) bytes ≡ rest
    rest_read =
        drop-add hd.header_bytes hd.len bytes
        ∙ ap (drop hd.len) behind_header
        ∙ rw (← w.payload_length) (drop-length-append p.payload rest)

-- A buffer that holds whole packets and then bytes to wait on: every packet goes to its handler, in
-- order, and just those bytes stay.
pub drain-stream :
    (ps : List Packet) (tail : List ℕ) (fuel : ℕ) (d : AlpDemux) (plp_id : ℕ)
    → AllWellFormed ps
    → Waits tail
    → length (stream ps tail) < fuel
    → drain fuel d plp_id (stream ps tail) ≡ some (drained d plp_id ps tail)
drain-stream ps tail zero d plp_id w t h = absurd (omega arith)
drain-stream [] tail (suc fuel) d plp_id w t h = drain-Waits fuel d plp_id tail t
drain-stream (p ∷ ps) tail (suc fuel) d plp_id (w, ws) t h =
    drain-packet fuel d plp_id p (stream ps tail) w
    ∙ ap (Option.map (after_packet outcome.1)) (
        drain-stream ps tail fuel (packet_done outcome.0) plp_id ws t
          (omega (arith, frame_length p (stream ps tail), h)))
    ∙ ground arith
  where
    outcome : AlpDemux × List Delivery
    outcome = process_packet d plp_id (header p) p.payload

-- The timeouts change nothing that they do not compare.
timeouts-kept :
    (d : AlpDemux)
    → ((check_reassembly_timeouts d).input_buffer ≡ d.input_buffer)
      × (record (check_reassembly_timeouts d) { last_check = 0 } ≡ record d { last_check = 0 })
unfolding check_reassembly_timeouts
timeouts-kept d = ground arith

-- `process` on a call that completes a buffer of whole packets and bytes to wait on: each packet goes
-- to its handler, in order, and advances the two counters, which so advance by the number of packets,
-- modulo 2 ^ 64; that number and the calls of the handlers, in order, are the result; and just the
-- bytes to wait on stay in the input buffer. The object is otherwise as the handlers leave it, up to
-- the static variable of the timeouts. How the bytes were spread over this call and the calls before
-- it plays no part.
pub process-stream :
    (d : AlpDemux) (plp_id : ℕ) (byte : ℕ) (bytes : List ℕ) (ps : List Packet) (tail : List ℕ)
    → d.input_buffer ++ byte ∷ bytes ≡ stream ps tail
    → AllWellFormed ps
    → Waits tail
    → let start = record d { current_plp_id = plp_id; input_buffer = stream ps tail } in
      let handled = handle_all start plp_id ps in
      (d' : AlpDemux) × (process d plp_id (byte ∷ bytes) ≡ some (d', length ps, handled.1))
      × (d'.input_buffer ≡ tail)
      × (record d' { last_check = 0 } ≡ record (handled.0) { input_buffer = tail; last_check = 0 })
      × (d'.stats.packets_received % 2 ^ 64 ≡ (d.stats.packets_received + length ps) % 2 ^ 64)
      × (d'.packet_counter % 2 ^ 64 ≡ (d.packet_counter + length ps) % 2 ^ 64)
unfolding process
process-stream d plp_id byte bytes ps tail e w t = (
  check_reassembly_timeouts left,
  rw (e, drain-stream ps tail (suc (length (stream ps tail))) start plp_id w t (omega arith)),
  (timeouts-kept left).0,
  (timeouts-kept left).1,
  ap (λ r. r.stats.packets_received % 2 ^ 64) (timeouts-kept left).1
      ∙ (handle_all-counts start plp_id ps).0,
  ap (λ r. r.packet_counter % 2 ^ 64) (timeouts-kept left).1
      ∙ (handle_all-counts start plp_id ps).1,
)
  where
    start : AlpDemux
    start = record d { current_plp_id = plp_id; input_buffer = stream ps tail }

    left : AlpDemux
    left = record ((handle_all start plp_id ps).0) { input_buffer = tail }

parse_header-split :
    (byte0 byte1 : ℕ) → bit byte0 4 ≡ true → parse_header (byte0 ∷ byte1 ∷ []) ≡ none
unfolding parse_header
parse_header-split byte0 byte1 b = ground arith

drain-split_header :
    (d : AlpDemux) (plp_id byte0 byte1 : ℕ)
    → bit byte0 4 ≡ true
    → drain 3 d plp_id (byte0 ∷ byte1 ∷ [])
      ≡ some (record { demux = header_failed d; rest = byte1 ∷ []; packets_parsed = 0; calls = [] })
unfolding drain
drain-split_header d plp_id byte0 byte1 b = rw (parse_header-split byte0 byte1 b, drain)

-- The first two bytes of a packet with PC = 1 cannot be read as a header yet. They are not kept: the
-- first of them is dropped and counted as a header error, so that the loop loses its place. The call
-- returns 0 and calls nothing; only the second byte stays in the input buffer, and no other counter or
-- context changes.
pub process-split_header :
    (d : AlpDemux) (plp_id byte0 byte1 : ℕ)
    → d.input_buffer ≡ []
    → bit byte0 4 ≡ true
    → (d' : AlpDemux) × (process d plp_id (byte0 ∷ byte1 ∷ []) ≡ some (d', 0, []))
      × (d'.input_buffer ≡ byte1 ∷ [])
      × (d'.stats.header_errors ≡ (d.stats.header_errors + 1) % 2 ^ 64)
      × (record d' { last_check = 0 } ≡ record d {
        current_plp_id = plp_id;
        input_buffer = byte1 ∷ [];
        stats = record (d.stats) { header_errors = (d.stats.header_errors + 1) % 2 ^ 64 };
        last_check = 0;
      })
unfolding process
process-split_header d plp_id byte0 byte1 e b = (
  check_reassembly_timeouts left,
  rw (
    e,
    drain-split_header (record d { current_plp_id = plp_id; input_buffer = byte0 ∷ byte1 ∷ [] })
        plp_id byte0 byte1 b,
  ),
  (timeouts-kept left).0,
  ap (λ r. r.stats.header_errors) (timeouts-kept left).1,
  (timeouts-kept left).1,
)
  where
    left : AlpDemux
    left = record d {
      current_plp_id = plp_id;
      input_buffer = byte1 ∷ [];
      stats = record (d.stats) { header_errors = (d.stats.header_errors + 1) % 2 ^ 64 };
    }
