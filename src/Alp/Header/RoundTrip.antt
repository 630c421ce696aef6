-- ===== src/Alp/Header/RoundTrip.antt =====
-- The four layouts of an ALP header, written out as bytes, and the parser on each of them.
use usrp_atsc.Common.{
  ℕ, ◌+◌, ◌*◌, ◌/◌, ◌%◌, ◌^◌, ◌<◌, ◌≤◌, ◌≡◌, refl, length, arith, List, [], ◌∷◌, ◌++◌, Bool, true,
  false, some, if◌then◌else◌,
}
use usrp_atsc.Alp.Header.{
  PacketType, AlpHeader, parse_header, packet_type_of, is_reserved, validated, single_header,
  extended_header, flagged_header, with_segment,
}

-- The layouts: PC = 0; PC = 1 and HM = 0; PC = 1 and HM = 1 with SIF = 0, and with SIF = 1.
pub data Layout : Type 0 where
  single : ℕ → Layout
  extended : ℕ → Layout
  flags : Bool → ℕ → Layout
  segment : Bool → ℕ → ℕ → Bool → ℕ → Layout

abbrev pub code : PacketType → ℕ
code PacketType.ipv4 = 0
code PacketType.reserved_1 = 1
code PacketType.compressed = 2
code PacketType.reserved_3 = 3
code PacketType.signaling = 4
code PacketType.reserved_5 = 5
code PacketType.extension = 6
code PacketType.mpeg2_ts = 7

abbrev pub flag : Bool → ℕ → ℕ
flag b weight = if b then weight else 0

-- Each value fits the bits that the layout gives it.
abbrev pub Fits : Layout → Type 0
Fits (single len) = len < 2 ^ 11
Fits (extended len) = len < 2 ^ 13
Fits (flags concatenation len) = len < 2 ^ 13
Fits (segment concatenation len sequence last stream) =
    (len < 2 ^ 13) × (sequence < 32) × (stream < 256)

unfoldable pub encode : PacketType → Layout → List ℕ
encode t (single len) = (code t * 32 + len / 128) ∷ (len % 128 * 2) ∷ []
encode t (extended len) = (code t * 32 + 16 + len / 1024) ∷ (len / 4 % 256) ∷ (len % 4 * 64) ∷ []
encode t (flags concatenation len) =
    (code t * 32 + 24) ∷ (flag concatenation 64 + len / 128) ∷ (len % 128 * 2) ∷ []
encode t (segment concatenation len sequence last stream) =
    (code t * 32 + 24)
    ∷ (128 + flag concatenation 64 + len / 128)
    ∷ (len % 128 * 2)
    ∷ (sequence * 8 + flag last 4 + stream / 64)
    ∷ (stream % 64 * 4)
    ∷ []

-- The header that a layout stands for.
unfoldable pub header_of : PacketType → Layout → AlpHeader
header_of t (single len) = record {
  packet_type = t;
  payload_config = false;
  header_mode = false;
  len = len;
  segmentation = false;
  concatenation = false;
  segment_sequence = 0;
  last_segment = false;
  sub_stream_id = 0;
  header_bytes = 2;
}
header_of t (extended len) = record {
  packet_type = t;
  payload_config = true;
  header_mode = false;
  len = len;
  segmentation = false;
  concatenation = false;
  segment_sequence = 0;
  last_segment = false;
  sub_stream_id = 0;
  header_bytes = 3;
}
header_of t (flags concatenation len) = record {
  packet_type = t;
  payload_config = true;
  header_mode = true;
  len = len;
  segmentation = false;
  concatenation = concatenation;
  segment_sequence = 0;
  last_segment = false;
  sub_stream_id = 0;
  header_bytes = 3;
}
header_of t (segment concatenation len sequence last stream) = record {
  packet_type = t;
  payload_config = true;
  header_mode = true;
  len = len;
  segmentation = true;
  concatenation = concatenation;
  segment_sequence = sequence;
  last_segment = last;
  sub_stream_id = stream;
  header_bytes = 5;
}

packet_type_of-code :
    (t : PacketType) (byte : ℕ)
    → code t * 32 ≤ byte
    → byte < code t * 32 + 32
    → packet_type_of (byte / 32 % 8) ≡ t
unfolding packet_type_of
packet_type_of-code PacketType.ipv4 byte h h' = ground arith
packet_type_of-code _ byte h h' = ground arith

-- Whatever follows the bytes of a header with a type that is not reserved, they parse as that
-- header.
pub parse_header-encode :
    (t : PacketType) (l : Layout) (rest : List ℕ)
    → is_reserved t ≡ false
    → Fits l
    → parse_header (encode t l ++ rest) ≡ some (header_of t l)
unfolding parse_header encode header_of single_header extended_header flagged_header with_segment
    validated
parse_header-encode t (single len) rest r f =
    ground (arith, packet_type_of-code t (code t * 32 + len / 128))
parse_header-encode t (extended len) rest r f =
    ground (arith, packet_type_of-code t (code t * 32 + 16 + len / 1024))
parse_header-encode t (flags c len) rest r f =
    ground (arith, packet_type_of-code t (code t * 32 + 24))
parse_header-encode t (segment c len sequence last stream) rest r f =
    ground (arith, packet_type_of-code t (code t * 32 + 24))

-- The bytes of a layout are as many as its header says.
pub length-encode :
    (t : PacketType) (l : Layout) → length (encode t l) ≡ (header_of t l).header_bytes
unfolding encode header_of
length-encode t (single len) = refl
length-encode t (extended len) = refl
length-encode t (flags c len) = refl
length-encode t (segment c len sequence last stream) = refl

pub length-encode-ge : (t : PacketType) (l : Layout) → 2 ≤ length (encode t l)
unfolding encode
length-encode-ge t (single len) = omega arith
length-encode-ge t (extended len) = omega arith
length-encode-ge t (flags c len) = omega arith
length-encode-ge t (segment c len sequence last stream) = omega arith
