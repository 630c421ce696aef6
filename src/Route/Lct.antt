-- ===== src/Route/Lct.antt =====
-- The LCT header: `LctHeader` and `RouteParser::parse_lct_header`.
-- A byte is a number below 256. Where the code joins bytes with `|`, they have no bit in common, so they
-- are added. A read behind the end of the packet is `none`.
pub mod Bounds
pub mod Written
pub mod RoundTrip
use usrp_atsc.Common.{
  ℕ, ◌+◌, ◌*◌, ◌/◌, ◌%◌, ◌^◌, ◌==◌, ltb, if◌then◌else◌, Bool, true, false, List, [], ◌∷◌, length,
  get_elem?, Option, none, some,
}
use usrp_atsc.Common.Maybe.{◌>>=◌}

pub record LctHeader : Type 0 where
  pub version : ℕ
  pub congestion_control : ℕ
  pub psr : ℕ
  pub transport_session_id_flag : ℕ
  pub transport_object_id_flag : ℕ
  pub half_word_flag : ℕ
  pub close_session_flag : ℕ
  pub close_object_flag : ℕ
  pub header_length : ℕ
  pub codepoint : ℕ
  pub congestion_control_info : ℕ
  pub tsi : ℕ
  pub toi : ℕ
  pub sct_present : Bool
  pub sender_current_time : ℕ
  pub elt_present : Bool
  pub expected_transfer_length : ℕ
  pub header_bytes : ℕ

-- The fields of the first four bytes, the others at their defaults.
unfoldable pub base_header : ℕ → ℕ → ℕ → ℕ → LctHeader
base_header byte0 byte1 byte2 byte3 = record {
  version = byte0 / 2 ^ 4 % 16;
  congestion_control = byte0 / 2 ^ 2 % 4;
  psr = byte0 % 4;
  transport_session_id_flag = byte1 / 2 ^ 7 % 2;
  transport_object_id_flag = byte1 / 2 ^ 5 % 4;
  half_word_flag = byte1 / 2 ^ 4 % 2;
  close_session_flag = byte1 / 2 % 2;
  close_object_flag = byte1 % 2;
  header_length = byte2;
  codepoint = byte3;
  congestion_control_info = 0;
  tsi = 0;
  toi = 0;
  sct_present = false;
  sender_current_time = 0;
  elt_present = false;
  expected_transfer_length = 0;
  header_bytes = 0;
}

unfoldable pub cci_size : LctHeader → ℕ
cci_size h = if ltb 0 h.congestion_control then 4 else 0

unfoldable pub tsi_size : LctHeader → ℕ
tsi_size h =
    if h.transport_session_id_flag == 1 then (if h.half_word_flag == 1 then 2 else 4) else 0

unfoldable pub toi_size : LctHeader → ℕ
toi_size h =
    if h.transport_object_id_flag == 0
    then 0
    else if h.transport_object_id_flag == 1
    then (if h.half_word_flag == 1 then 2 else 4)
    else if h.transport_object_id_flag == 2
    then (if h.half_word_flag == 1 then 4 else 8)
    else (if h.half_word_flag == 1 then 6 else 12)

-- `min_header`
unfoldable pub min_header : LctHeader → ℕ
unfolding cci_size tsi_size toi_size
min_header h = 4 + cci_size h + tsi_size h + toi_size h

-- Two and four bytes, the most significant one first.
unfoldable pub read_16 : List ℕ → ℕ → Option ℕ
read_16 packet offset = do
  a ← get_elem? packet offset
  b ← get_elem? packet (offset + 1)
  some (a * 2 ^ 8 + b)

unfoldable pub read_32 : List ℕ → ℕ → Option ℕ
read_32 packet offset = do
  a ← get_elem? packet offset
  b ← get_elem? packet (offset + 1)
  c ← get_elem? packet (offset + 2)
  d ← get_elem? packet (offset + 3)
  some (a * 2 ^ 24 + b * 2 ^ 16 + c * 2 ^ 8 + d)

unfoldable pub read_cci : List ℕ → LctHeader → ℕ → Option ℕ
unfolding read_32
read_cci packet h offset = if ltb 0 h.congestion_control then read_32 packet offset else some 0

unfoldable pub read_tsi : List ℕ → LctHeader → ℕ → Option ℕ
unfolding read_16 read_32
read_tsi packet h offset =
    if h.transport_session_id_flag == 1
    then (if h.half_word_flag == 1 then read_16 packet offset else read_32 packet offset)
    else some 0

-- Of the longer object identifiers the first 32 bits are read.
unfoldable pub read_toi : List ℕ → LctHeader → ℕ → Option ℕ
unfolding read_16 read_32
read_toi packet h offset =
    if ltb 0 h.transport_object_id_flag
    then (if h.transport_object_id_flag == 1
        then (if h.half_word_flag == 1 then read_16 packet offset else read_32 packet offset)
        else read_32 packet offset)
    else some 0

-- The variable fields, behind the test of the length.
unfoldable pub read_fields : List ℕ → LctHeader → Option LctHeader
unfolding read_cci read_tsi read_toi cci_size tsi_size toi_size
read_fields packet h = do
  cci ← read_cci packet h 4
  tsi ← read_tsi packet h (4 + cci_size h)
  toi ← read_toi packet h (4 + cci_size h + tsi_size h)
  let offset = 4 + cci_size h + tsi_size h + toi_size h
  let total = h.header_length * 4
  some (record h {
    congestion_control_info = cci;
    tsi = tsi;
    toi = toi;
    header_bytes = if ltb total offset then offset else total;
  })

-- `parse_lct_header`: the header, or `none` where it returns false.
unfoldable pub parse_lct_header : List ℕ → Option (Option LctHeader)
unfolding base_header min_header read_fields
parse_lct_header packet = if ltb (length packet) 4 then some none else do
  byte0 ← get_elem? packet 0
  byte1 ← get_elem? packet 1
  byte2 ← get_elem? packet 2
  byte3 ← get_elem? packet 3
  let h = base_header byte0 byte1 byte2 byte3
  if h.version == 1
      then (if ltb (length packet) (min_header h)
          then some none
          else (do header ← read_fields packet h; some (some header)))
      else some none
