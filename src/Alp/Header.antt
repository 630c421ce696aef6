-- ===== src/Alp/Header.antt =====
-- `AlpPacketType`, `AlpHeader` and `AlpDemux::parse_header`.
-- A byte is a number below 256. Where the code joins bit fields with `|`, the fields have no bit in
-- common, so they are added; `x >> k` is `x / 2 ^ k` and `x & (2 ^ k - 1)` is `x % 2 ^ k`.
pub mod Bounds
pub mod RoundTrip
use usrp_atsc.Common.{
  ℕ, ◌+◌, ◌*◌, ◌/◌, ◌%◌, ◌^◌, ◌==◌, ltb, leb, if◌then◌else◌, Bool, true, false, List, length,
  get_or, Option, none, some,
}

pub data PacketType : Type 0 where
  ipv4 reserved_1 compressed reserved_3 signaling reserved_5 extension mpeg2_ts : PacketType

pub record AlpHeader : Type 0 where
  pub packet_type : PacketType
  pub payload_config : Bool
  pub header_mode : Bool
  pub len : ℕ
  pub segmentation : Bool
  pub concatenation : Bool
  pub segment_sequence : ℕ
  pub last_segment : Bool
  pub sub_stream_id : ℕ
  pub header_bytes : ℕ

-- The cast of three bits to `AlpPacketType`.
unfoldable pub packet_type_of : ℕ → PacketType
packet_type_of n =
    if n == 0
    then PacketType.ipv4
    else if n == 1
    then PacketType.reserved_1
    else if n == 2
    then PacketType.compressed
    else if n == 3
    then PacketType.reserved_3
    else if n == 4
    then PacketType.signaling
    else if n == 5
    then PacketType.reserved_5
    else if n == 6
    then PacketType.extension
    else PacketType.mpeg2_ts

-- `MIN_HEADER_BYTES`, `TS_PACKET_SIZE` and `MAX_ALP_PACKET_SIZE`
abbrev pub min_header_bytes : ℕ
min_header_bytes = 2

abbrev pub ts_packet_size : ℕ
ts_packet_size = 188

abbrev pub max_alp_packet_size : ℕ
max_alp_packet_size = 65535

-- One bit of a byte, as a `bool`.
abbrev pub bit : ℕ → ℕ → Bool
bit byte k = byte / 2 ^ k % 2 == 1

-- The header with the fields of its first byte, and the others at their defaults.
abbrev pub start_header : ℕ → AlpHeader
start_header byte0 = record {
  packet_type = packet_type_of (byte0 / 2 ^ 5 % 8);
  payload_config = bit byte0 4;
  header_mode = false;
  len = 0;
  segmentation = false;
  concatenation = false;
  segment_sequence = 0;
  last_segment = false;
  sub_stream_id = 0;
  header_bytes = 0;
}

-- PC = 0: four and seven bits of length.
unfoldable pub single_header : ℕ → ℕ → AlpHeader
single_header byte0 byte1 = record (start_header byte0) {
  len = byte0 % 16 * 2 ^ 7 + byte1 / 2;
  header_bytes = 2;
}

-- PC = 1, HM = 0: three, eight and two bits of length.
unfoldable pub extended_header : ℕ → ℕ → ℕ → AlpHeader
extended_header byte0 byte1 byte2 = record (start_header byte0) {
  len = byte0 % 8 * 2 ^ 10 + byte1 * 2 ^ 2 + byte2 / 2 ^ 6;
  header_bytes = 3;
}

-- PC = 1, HM = 1: the two flags, six and seven bits of length.
unfoldable pub flagged_header : ℕ → ℕ → ℕ → AlpHeader
flagged_header byte0 byte1 byte2 = record (start_header byte0) {
  header_mode = true;
  segmentation = bit byte1 7;
  concatenation = bit byte1 6;
  len = byte1 % 2 ^ 6 * 2 ^ 7 + byte2 / 2;
  header_bytes = 3;
}

-- The two bytes of the segmentation header.
unfoldable pub with_segment : AlpHeader → ℕ → ℕ → AlpHeader
with_segment h seg_byte0 seg_byte1 = record h {
  segment_sequence = seg_byte0 / 2 ^ 3 % 2 ^ 5;
  last_segment = bit seg_byte0 2;
  sub_stream_id = seg_byte0 % 4 * 2 ^ 6 + seg_byte1 / 2 ^ 2;
  header_bytes = h.header_bytes + 2;
}

unfoldable pub is_reserved : PacketType → Bool
is_reserved PacketType.reserved_1 = true
is_reserved PacketType.reserved_3 = true
is_reserved PacketType.reserved_5 = true
is_reserved _ = false

-- The tests at the end of `parse_header`.
unfoldable pub validated : AlpHeader → Option AlpHeader
validated h =
    if is_reserved h.packet_type
    then none
    else if ltb max_alp_packet_size h.len
    then none
    else some h

-- The branch for SIF, on the header that `flagged_header` has read.
unfoldable pub flagged : AlpHeader → List ℕ → Option AlpHeader
flagged h bytes =
    if h.segmentation
    then if ltb (length bytes) (h.header_bytes + 2)
      then none
      else validated
          (with_segment h (get_or bytes h.header_bytes 0) (get_or bytes (h.header_bytes + 1) 0))
    else validated h

-- `parse_header`; `none` is its `false`.
unfoldable pub parse_header : List ℕ → Option AlpHeader
unfolding flagged
parse_header bytes =
    let byte0 = get_or bytes 0 0 in
    let byte1 = get_or bytes 1 0 in
    let byte2 = get_or bytes 2 0 in
    if ltb (length bytes) min_header_bytes
    then none
    else if bit byte0 4
    then if ltb (length bytes) 3
      then none
      else if bit byte0 3
      then flagged (flagged_header byte0 byte1 byte2) bytes
      else validated (extended_header byte0 byte1 byte2)
    else validated (single_header byte0 byte1)
