-- ===== src/Config.antt =====
-- The run-time configuration: the types of lib/config/atsc3_config.h and the functions on them.
pub mod Bus
mod Tests
pub mod Derived
use usrp_atsc.Common.{ℕ, Bool, true, false, List, replicate}

pub data Modulation : Type 0 where
  qpsk qam16 qam64 qam256 qam1024 qam4096 : Modulation
  nuc_qpsk nuc_16 nuc_64 nuc_256 nuc_1024 nuc_4096 : Modulation

pub data CodeRate : Type 0 where
  rate_2_15 rate_3_15 rate_4_15 rate_5_15 rate_6_15 rate_7_15 : CodeRate
  rate_8_15 rate_9_15 rate_10_15 rate_11_15 rate_12_15 rate_13_15 : CodeRate

pub data FftSize : Type 0 where
  fft_8k fft_16k fft_32k : FftSize

pub data CpLength : Type 0 where
  cp_192 cp_384 cp_512 cp_768 cp_1024 cp_1536 cp_2048 cp_2432 cp_3072 cp_3648 cp_4096 : CpLength

pub data PilotPattern : Type 0 where
  pp1 pp2 pp3 pp4 pp5 pp6 pp7 pp8 : PilotPattern

pub data TimeInterleaveMode : Type 0 where
  off cti hti : TimeInterleaveMode

pub data CodewordLength : Type 0 where
  short long : CodewordLength

pub data PlpType : Type 0 where
  non_dispersed dispersed : PlpType

-- `MAX_PLPS`
abbrev pub max_plps : ℕ
max_plps = 64

pub record PlpConfig : Type 0 where
  pub plp_id : ℕ
  pub plp_type : PlpType
  pub plp_layer : ℕ
  pub modulation : Modulation
  pub code_rate : CodeRate
  pub codeword_length : CodewordLength
  pub ti_mode : TimeInterleaveMode
  pub ti_depth : ℕ
  pub ti_num_blocks : ℕ
  pub ti_extended : Bool
  pub num_fec_blocks : ℕ
  pub fec_block_start : ℕ
  pub ldm_injection_level : ℕ
  pub valid : Bool

abbrev pub default_plp : PlpConfig
default_plp = record {
  plp_id = 0;
  plp_type = PlpType.non_dispersed;
  plp_layer = 0;
  modulation = Modulation.qpsk;
  code_rate = CodeRate.rate_7_15;
  codeword_length = CodewordLength.long;
  ti_mode = TimeInterleaveMode.cti;
  ti_depth = 0;
  ti_num_blocks = 0;
  ti_extended = false;
  num_fec_blocks = 0;
  fec_block_start = 0;
  ldm_injection_level = 0;
  valid = false;
}

pub record Atsc3Config : Type 0 where
  pub version : ℕ
  pub fft_size : FftSize
  pub cp_length : CpLength
  pub pilot_pattern : PilotPattern
  pub gi_fraction : ℕ
  pub preamble_reduced_carriers : Bool
  pub l1_post_size : ℕ
  pub l1_post_modulation : Modulation
  pub l1_post_code_rate : CodeRate
  pub l1_post_scrambled : Bool
  pub l1_post_num_symbols : ℕ
  pub num_subframes : ℕ
  pub num_plps : ℕ
  pub plps : List PlpConfig
  pub frame_length_samples : ℕ
  pub num_ofdm_symbols : ℕ
  pub valid : Bool

-- `Atsc3Config()`, with the default values of the fields.
abbrev pub empty_config : Atsc3Config
empty_config = record {
  version = 0;
  fft_size = FftSize.fft_8k;
  cp_length = CpLength.cp_1024;
  pilot_pattern = PilotPattern.pp3;
  gi_fraction = 0;
  preamble_reduced_carriers = false;
  l1_post_size = 0;
  l1_post_modulation = Modulation.qpsk;
  l1_post_code_rate = CodeRate.rate_5_15;
  l1_post_scrambled = false;
  l1_post_num_symbols = 0;
  num_subframes = 1;
  num_plps = 0;
  plps = replicate max_plps default_plp;
  frame_length_samples = 0;
  num_ofdm_symbols = 0;
  valid = false;
}
