-- ===== src/L1/Decode.antt =====
-- `L1Decoder::decode_l1_pre`, `decode_l1_post` and `build_config`, and the observers.
pub mod Reads
pub mod Faults
pub mod Accepted
use usrp_atsc.Common.{
  ℕ, zero, suc, ◌*◌, ◌==◌, if◌then◌else◌, Bool, true, false, not, ◌&&◌, ◌||◌, List, [], ◌∷◌, ◌++◌,
  map, length, get_or, set, min, Option, none, some, ◌+◌, ◌-◌,
}
use usrp_atsc.Common.Maybe.{◌>>=◌}
use usrp_atsc.Config.{Atsc3Config, PlpConfig, default_plp, empty_config, max_plps}
use usrp_atsc.L1.Bits.{fec_decode}
use usrp_atsc.L1.Fields.{L1Pre, L1Post, L1DecoderConfig}
use usrp_atsc.L1.Unpack.{unpack_l1_pre, unpack_l1_post}

-- What a decoding call gives back: its result, and what it has written to `out` if anything.
abbrev pub Decoded : Type 0 → Type 0
Decoded A = Bool × Option A

-- `decode_l1_pre`. A null pointer is the empty list; `fec_decode` returns true always.
unfoldable pub decode_l1_pre : L1DecoderConfig → List ℕ → Option (Decoded L1Pre)
decode_l1_pre config [] = some (false, none)
decode_l1_pre config (llr ∷ llrs) =
    let decoded = fec_decode (llr ∷ llrs) in
    (unpack_l1_pre config.check_crc decoded (length decoded * 8) >>= λ out.
    some (out.crc_valid || not config.check_crc, some out))

-- `decode_l1_post`
unfoldable pub decode_l1_post : L1DecoderConfig → List ℕ → L1Pre → Option (Decoded L1Post)
decode_l1_post config [] l1_pre = some (false, none)
decode_l1_post config (llr ∷ llrs) l1_pre =
    let decoded = fec_decode (llr ∷ llrs) in
    (unpack_l1_post config.check_crc decoded (length decoded * 8) l1_pre.num_subframes >>= λ out.
    some (out.crc_valid || not config.check_crc, some out))

-- The loop that copies the PLPs, from number `i` on with `count` left.
unfoldable pub copy_plps : ℕ → ℕ → List PlpConfig → List PlpConfig → List PlpConfig
copy_plps i zero source plps = plps
copy_plps i (suc count) source plps =
    copy_plps (i + 1) count source (set plps i (get_or source i default_plp))

-- `build_config`
unfoldable pub build_config : L1DecoderConfig → L1Pre → L1Post → Atsc3Config
unfolding copy_plps
build_config config pre post = record empty_config {
  version = pre.version;
  fft_size = pre.fft_size;
  cp_length = pre.cp_length;
  pilot_pattern = pre.pilot_pattern;
  gi_fraction = pre.gi_fraction;
  preamble_reduced_carriers = pre.preamble_reduced_carriers;
  l1_post_size = pre.l1_post_size_cells;
  l1_post_modulation = pre.l1_post_modulation;
  l1_post_code_rate = pre.l1_post_code_rate;
  l1_post_scrambled = pre.l1_post_scrambled;
  num_subframes = post.configurable.num_subframes;
  num_plps = post.configurable.num_plps;
  plps = copy_plps 0 (min post.configurable.num_plps max_plps) post.plps empty_config.plps;
  valid = (pre.crc_valid || not config.check_crc) && (post.crc_valid || not config.check_crc);
}

-- `L1Decoder`: the observers are identified by numbers, and no method reads the two buffers.
pub record L1Decoder : Type 0 where
  pub config : L1DecoderConfig
  pub observers : List ℕ
  pub decoded_bits : List ℕ
  pub llr_buffer : List ℕ

-- `reset`
unfoldable pub reset_decoder : L1Decoder → L1Decoder
reset_decoder d = record d { decoded_bits = []; llr_buffer = [] }

-- `add_observer`
unfoldable pub add_observer : L1Decoder → ℕ → L1Decoder
add_observer d observer = record d { observers = d.observers ++ observer ∷ [] }

-- `notify_observers`: the calls it makes, in order.
unfoldable pub notify_observers : L1Decoder → Atsc3Config → List (ℕ × Atsc3Config)
notify_observers d config = map (λ observer. (observer, config)) d.observers
