-- ===== src/Alp/Header/Bounds.antt =====
-- What an accepted header is bound to, and that more bytes do not change what was read.
use usrp_atsc.Common.{
  ℕ, zero, suc, ◌^◌, ◌<◌, ◌≤◌, ◌≡◌, arith, List, [], ◌∷◌, length, get_or, ◌++◌, false, some,
}
use usrp_atsc.Crc.Division.{IsBytes}
use usrp_atsc.Alp.Header.{
  AlpHeader, parse_header, is_reserved, validated, single_header, extended_header, flagged_header,
  with_segment,
}

pub record IsBounded (bytes : List ℕ) (h : AlpHeader) : Type 0 where
  pub not_reserved : is_reserved h.packet_type ≡ false
  pub header_at_least : 2 ≤ h.header_bytes
  pub header_at_most : h.header_bytes ≤ 5
  pub header_inside : h.header_bytes ≤ length bytes
  pub length_bits : h.len < 2 ^ 13
  pub sequence_bits : h.segment_sequence < 32
  pub stream_bits : h.sub_stream_id < 256

pub get_or-IsBytes : (bytes : List ℕ) (i : ℕ) → IsBytes bytes → get_or bytes i 0 < 256
get_or-IsBytes [] i b = omega arith
get_or-IsBytes (x ∷ bytes) zero b = b.0
get_or-IsBytes (x ∷ bytes) (suc i) b = get_or-IsBytes bytes i b.1

-- A header that `parse_header` accepts has a type that is not reserved, lies within the bytes that
-- were given, and its fields have the widths that the format gives them.
pub parse_header-IsBounded :
    (bytes : List ℕ) (h : AlpHeader)
    → IsBytes bytes
    → parse_header bytes ≡ some h
    → IsBounded bytes h
unfolding parse_header single_header extended_header flagged_header with_segment validated
parse_header-IsBounded bytes h b e = ground (
  arith,
  get_or-IsBytes bytes 0 b,
  get_or-IsBytes bytes 1 b,
  get_or-IsBytes bytes 2 b,
  get_or-IsBytes bytes 3 b,
  get_or-IsBytes bytes 4 b,
)

-- Bytes that come after an accepted header do not change how it is read.
pub parse_header-append :
    (bytes more : List ℕ) (h : AlpHeader)
    → parse_header bytes ≡ some h
    → parse_header (bytes ++ more) ≡ some h
unfolding parse_header single_header extended_header flagged_header
parse_header-append [] more h e = cc e
parse_header-append (b0 ∷ []) more h e = cc e
parse_header-append (b0 ∷ b1 ∷ []) more h e = ground arith
parse_header-append (b0 ∷ b1 ∷ b2 ∷ []) more h e = ground arith
parse_header-append (b0 ∷ b1 ∷ b2 ∷ b3 ∷ []) more h e = ground arith
parse_header-append (b0 ∷ b1 ∷ b2 ∷ b3 ∷ b4 ∷ rest) more h e = ground arith

-- An accepted header takes two bytes or more.
pub header_bytes-ge :
    (bytes : List ℕ) (h : AlpHeader) → parse_header bytes ≡ some h → 2 ≤ h.header_bytes
unfolding parse_header single_header extended_header flagged_header with_segment validated
header_bytes-ge bytes h e = ground arith
