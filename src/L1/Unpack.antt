-- ===== src/L1/Unpack.antt =====
-- `L1Decoder::unpack_l1_pre`, `unpack_plp_config` and `unpack_l1_post`. `none` is a read outside of
-- the buffer. The casts of fields to narrow integers lose nothing, as each field fits.
use usrp_atsc.Common.{
  ℕ, zero, suc, ◌+◌, ◌==◌, ltb, if◌then◌else◌, Bool, true, false, not, List, set, min, Option, some,
  ◌&&◌,
}
use usrp_atsc.Common.Maybe.{◌>>=◌}
use usrp_atsc.Config.{PlpType, CodewordLength, PlpConfig, default_plp, max_plps}
use usrp_atsc.L1.Bits.{extract_bits, validate_crc}
use usrp_atsc.L1.Fields.{
  L1Pre, L1Post, empty_post, index_to_fft_size, index_to_pilot_pattern, index_to_modulation,
  index_to_code_rate, index_to_ti_mode, index_to_cp_length,
}

-- `unpack_l1_pre`
unfoldable pub unpack_l1_pre : Bool → List ℕ → ℕ → Option L1Pre
unpack_l1_pre check_crc bits num_bits = do
  version ← extract_bits bits 0 3
  fft_idx ← extract_bits bits 3 2
  gi_fraction ← extract_bits bits 5 4
  pp_idx ← extract_bits bits 9 3
  l1_post_size_cells ← extract_bits bits 12 16
  mod_idx ← extract_bits bits 28 4
  rate_idx ← extract_bits bits 32 4
  l1_post_fec_type ← extract_bits bits 36 2
  reduced ← extract_bits bits 38 1
  num_subframes ← extract_bits bits 39 8
  crc_valid ← validate_crc check_crc bits num_bits
  some (record {
    version = version;
    fft_size = index_to_fft_size fft_idx;
    gi_fraction = gi_fraction;
    cp_length = index_to_cp_length gi_fraction;
    pilot_pattern = index_to_pilot_pattern pp_idx;
    l1_post_size_cells = l1_post_size_cells;
    l1_post_modulation = index_to_modulation mod_idx;
    l1_post_code_rate = index_to_code_rate rate_idx;
    l1_post_scrambled = false;
    l1_post_fec_type = l1_post_fec_type;
    num_subframes = num_subframes;
    preamble_reduced_carriers = not (reduced == 0);
    crc_valid = crc_valid;
  })

-- `PLP_RECORD_BITS`
abbrev pub plp_record_bits : ℕ
plp_record_bits = 90

-- The fields that `unpack_plp_config` reads.
unfoldable pub plp_fields : List ℕ → ℕ → Option PlpConfig
plp_fields bits bit_offset = do
  plp_id ← extract_bits bits bit_offset 6
  type_idx ← extract_bits bits (bit_offset + 6) 1
  mod_idx ← extract_bits bits (bit_offset + 7) 4
  rate_idx ← extract_bits bits (bit_offset + 11) 4
  ti_idx ← extract_bits bits (bit_offset + 15) 2
  num_fec_blocks ← extract_bits bits (bit_offset + 17) 15
  cw_len ← extract_bits bits (bit_offset + 32) 1
  ti_depth ← extract_bits bits (bit_offset + 33) 4
  ti_num_blocks ← extract_bits bits (bit_offset + 37) 10
  some (record default_plp {
    plp_id = plp_id;
    plp_type = if type_idx == 0 then PlpType.non_dispersed else PlpType.dispersed;
    modulation = index_to_modulation mod_idx;
    code_rate = index_to_code_rate rate_idx;
    ti_mode = index_to_ti_mode ti_idx;
    num_fec_blocks = num_fec_blocks;
    codeword_length = if cw_len == 0 then CodewordLength.short else CodewordLength.long;
    ti_depth = ti_depth;
    ti_num_blocks = ti_num_blocks;
    valid = true;
  })

-- `unpack_plp_config`, with the offset it leaves: the rest of the record is skipped.
unfoldable pub unpack_plp_config : List ℕ → ℕ → Option (PlpConfig × ℕ)
unfolding plp_fields
unpack_plp_config bits bit_offset = do
  plp ← plp_fields bits bit_offset
  some (plp, bit_offset + plp_record_bits)

-- The loop over the PLPs, from number `i` on with `count` left.
unfoldable pub unpack_plps : List ℕ → ℕ → ℕ → ℕ → List PlpConfig → Option (List PlpConfig)
unpack_plps bits i zero bit_offset plps = some plps
unpack_plps bits i (suc count) bit_offset plps = do
  unpacked ← unpack_plp_config bits bit_offset
  unpack_plps bits (i + 1) count unpacked.1 (set plps i unpacked.0)

-- The number of PLPs, after the hint is taken where the field is 0.
abbrev pub signalled_plps : ℕ → ℕ → ℕ
signalled_plps field num_plps_hint =
    if (field == 0) && ltb 0 num_plps_hint then num_plps_hint else field

-- `unpack_l1_post`
unfoldable pub unpack_l1_post : Bool → List ℕ → ℕ → ℕ → Option L1Post
unpack_l1_post check_crc bits num_bits num_plps_hint = do
  field ← extract_bits bits 0 6
  num_subframes ← extract_bits bits 6 8
  plps ← unpack_plps bits 0 (min (signalled_plps field num_plps_hint) max_plps) 14 empty_post.plps
  crc_valid ← validate_crc check_crc bits num_bits
  some (record empty_post {
    configurable = record (empty_post.configurable) {
      num_plps = signalled_plps field num_plps_hint;
      num_subframes = num_subframes;
    };
    plps = plps;
    size_bits = num_bits;
    crc_valid = crc_valid;
  })
