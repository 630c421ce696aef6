-- ===== src/L1/Fields.antt =====
-- The records of lib/framing/l1_decoder.h and the maps from field values to the enumerations.
use usrp_atsc.Common.{ℕ, leb, if◌then◌else◌, Bool, false, List, [], ◌∷◌, get_or, replicate}
use usrp_atsc.Config.{
  Modulation, CodeRate, FftSize, CpLength, PilotPattern, TimeInterleaveMode, PlpConfig, default_plp,
  max_plps,
}

pub record L1Pre : Type 0 where
  pub version : ℕ
  pub fft_size : FftSize
  pub gi_fraction : ℕ
  pub cp_length : CpLength
  pub pilot_pattern : PilotPattern
  pub l1_post_size_cells : ℕ
  pub l1_post_modulation : Modulation
  pub l1_post_code_rate : CodeRate
  pub l1_post_scrambled : Bool
  pub l1_post_fec_type : ℕ
  pub num_subframes : ℕ
  pub preamble_reduced_carriers : Bool
  pub crc_valid : Bool

pub record L1PostConfigurable : Type 0 where
  pub num_plps : ℕ
  pub num_subframes : ℕ
  pub time_info_present : Bool
  pub reserved : Bool

pub record L1Post : Type 0 where
  pub configurable : L1PostConfigurable
  pub plps : List PlpConfig
  pub frame_index : ℕ
  pub l1_change_counter : ℕ
  pub crc_valid : Bool
  pub size_bits : ℕ

pub record L1DecoderConfig : Type 0 where
  pub max_ldpc_iterations : ℕ
  pub check_crc : Bool
  pub l1_pre_short_ldpc : Bool

-- `L1Post()`, with the default values of the fields.
abbrev pub empty_post : L1Post
empty_post = record {
  configurable = record {
    num_plps = 0;
    num_subframes = 1;
    time_info_present = false;
    reserved = false;
  };
  plps = replicate max_plps default_plp;
  frame_index = 0;
  l1_change_counter = 0;
  crc_valid = false;
  size_bits = 0;
}

-- `index_to_fft_size`
unfoldable pub index_to_fft_size : ℕ → FftSize
index_to_fft_size idx =
    get_or (FftSize.fft_8k ∷ FftSize.fft_16k ∷ FftSize.fft_32k ∷ []) idx FftSize.fft_8k

-- `index_to_pilot_pattern`
unfoldable pub index_to_pilot_pattern : ℕ → PilotPattern
index_to_pilot_pattern idx =
    if leb idx 7
    then get_or
        (PilotPattern.pp1 ∷ PilotPattern.pp2 ∷ PilotPattern.pp3 ∷ PilotPattern.pp4
          ∷ PilotPattern.pp5 ∷ PilotPattern.pp6 ∷ PilotPattern.pp7 ∷ PilotPattern.pp8 ∷ [])
        idx PilotPattern.pp3
    else PilotPattern.pp3

-- The cast to `Modulation`, whose values are numbered in the order of their declaration.
abbrev pub modulations : List Modulation
modulations =
    (Modulation.qpsk ∷ Modulation.qam16 ∷ Modulation.qam64 ∷ Modulation.qam256 ∷ Modulation.qam1024
      ∷ Modulation.qam4096 ∷ Modulation.nuc_qpsk ∷ Modulation.nuc_16 ∷ Modulation.nuc_64
      ∷ Modulation.nuc_256 ∷ Modulation.nuc_1024 ∷ Modulation.nuc_4096 ∷ [])

-- `index_to_modulation`
unfoldable pub index_to_modulation : ℕ → Modulation
index_to_modulation idx =
    if leb idx 11 then get_or modulations idx Modulation.qpsk else Modulation.qpsk

-- The cast to `CodeRate`.
abbrev pub code_rates : List CodeRate
code_rates =
    (CodeRate.rate_2_15 ∷ CodeRate.rate_3_15 ∷ CodeRate.rate_4_15 ∷ CodeRate.rate_5_15
      ∷ CodeRate.rate_6_15 ∷ CodeRate.rate_7_15 ∷ CodeRate.rate_8_15 ∷ CodeRate.rate_9_15
      ∷ CodeRate.rate_10_15 ∷ CodeRate.rate_11_15 ∷ CodeRate.rate_12_15 ∷ CodeRate.rate_13_15 ∷ [])

-- `index_to_code_rate`
unfoldable pub index_to_code_rate : ℕ → CodeRate
index_to_code_rate idx =
    if leb idx 11 then get_or code_rates idx CodeRate.rate_7_15 else CodeRate.rate_7_15

-- `index_to_ti_mode`
unfoldable pub index_to_ti_mode : ℕ → TimeInterleaveMode
index_to_ti_mode idx =
    get_or (TimeInterleaveMode.off ∷ TimeInterleaveMode.cti ∷ TimeInterleaveMode.hti ∷ []) idx
      TimeInterleaveMode.cti

-- The cast to `CpLength`.
abbrev pub cp_lengths : List CpLength
cp_lengths =
    (CpLength.cp_192 ∷ CpLength.cp_384 ∷ CpLength.cp_512 ∷ CpLength.cp_768 ∷ CpLength.cp_1024
      ∷ CpLength.cp_1536 ∷ CpLength.cp_2048 ∷ CpLength.cp_2432 ∷ CpLength.cp_3072 ∷ CpLength.cp_3648
      ∷ CpLength.cp_4096 ∷ [])

-- `index_to_cp_length`
unfoldable pub index_to_cp_length : ℕ → CpLength
index_to_cp_length idx =
    if leb idx 10 then get_or cp_lengths idx CpLength.cp_1024 else CpLength.cp_1024
