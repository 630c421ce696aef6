-- ===== src/Config/Derived.antt =====
-- The derived parameters of `Atsc3Config`, and what keeps them together.
use usrp_atsc.Common.{
  ℕ, ◌+◌, ◌-◌, ◌*◌, ◌/◌, ◌<◌, ◌≤◌, ◌≡◌, arith, leb, if◌then◌else◌, get_elem?, set, true, Option,
  some,
}
use usrp_atsc.Common.Maybe.{◌>>=◌}
use usrp_atsc.Config.{
  Modulation, FftSize, CpLength, PilotPattern, TimeInterleaveMode, CodeRate, CodewordLength,
  Atsc3Config, default_plp, empty_config,
}

-- `get_fft_samples`
unfoldable pub get_fft_samples : Atsc3Config → ℕ
get_fft_samples config = elim config.fft_size [
  | FftSize.fft_8k ↦ 8192
  | FftSize.fft_16k ↦ 16384
  | FftSize.fft_32k ↦ 32768
]

-- The entry of `cp_numerators` for a length.
unfoldable pub cp_numerator : CpLength → ℕ
cp_numerator CpLength.cp_192 = 192
cp_numerator CpLength.cp_384 = 384
cp_numerator CpLength.cp_512 = 512
cp_numerator CpLength.cp_768 = 768
cp_numerator CpLength.cp_1024 = 1024
cp_numerator CpLength.cp_1536 = 1536
cp_numerator CpLength.cp_2048 = 2048
cp_numerator CpLength.cp_2432 = 2432
cp_numerator CpLength.cp_3072 = 3072
cp_numerator CpLength.cp_3648 = 3648
cp_numerator CpLength.cp_4096 = 4096

-- `get_cp_samples`
unfoldable pub get_cp_samples : Atsc3Config → ℕ
unfolding get_fft_samples
get_cp_samples config = cp_numerator config.cp_length * get_fft_samples config / 8192

-- `get_active_carriers`
unfoldable pub get_active_carriers : Atsc3Config → ℕ
get_active_carriers config = elim config.fft_size [
  | FftSize.fft_8k ↦ 6913
  | FftSize.fft_16k ↦ 13825
  | FftSize.fft_32k ↦ 27649
]

-- `get_first_active_carrier`
unfoldable pub get_first_active_carrier : Atsc3Config → ℕ
unfolding get_fft_samples get_active_carriers
get_first_active_carrier config = (get_fft_samples config - get_active_carriers config) / 2

-- `get_codeword_bits`; `none` is a read past the end of the array, which 64 PLPs fill.
unfoldable pub get_codeword_bits : Atsc3Config → ℕ → Option ℕ
get_codeword_bits config plp_idx =
    if leb config.num_plps plp_idx
    then some 0
    else (get_elem? config.plps plp_idx >>= λ plp.
        some
          (elim plp.codeword_length [ CodewordLength.short ↦ 16200 | CodewordLength.long ↦ 64800 ]))

-- `bits_per_symbol`
unfoldable pub bits_per_symbol : Modulation → ℕ
bits_per_symbol Modulation.qpsk = 2
bits_per_symbol Modulation.nuc_qpsk = 2
bits_per_symbol Modulation.qam16 = 4
bits_per_symbol Modulation.nuc_16 = 4
bits_per_symbol Modulation.qam64 = 6
bits_per_symbol Modulation.nuc_64 = 6
bits_per_symbol Modulation.qam256 = 8
bits_per_symbol Modulation.nuc_256 = 8
bits_per_symbol Modulation.qam1024 = 10
bits_per_symbol Modulation.nuc_1024 = 10
bits_per_symbol Modulation.qam4096 = 12
bits_per_symbol Modulation.nuc_4096 = 12

-- A cyclic prefix is a whole number of samples, takes at most half a symbol, and scales with the FFT
-- size; the active carriers lie inside of the FFT with the same number of unused ones before and
-- after, but for one.
pub record IsConsistent (config : Atsc3Config) : Type 0 where
  pub prefix_exact :
      get_cp_samples config * 8192 ≡ cp_numerator config.cp_length * get_fft_samples config
  pub prefix_half : get_cp_samples config * 2 ≤ get_fft_samples config
  pub carriers_inside :
      get_first_active_carrier config + get_active_carriers config < get_fft_samples config
  pub carriers_centred :
      get_fft_samples config ≡ get_first_active_carrier config * 2 + 1 + get_active_carriers config

numerator_half : (cp : CpLength) → cp_numerator cp * 2 ≤ 8192
unfolding cp_numerator
numerator_half CpLength.cp_192 = omega arith
numerator_half _ = omega arith

-- In every configuration, the cyclic prefix is a whole number of samples that scales with the FFT size
-- and takes at most half of a symbol, and the active carriers lie inside of the FFT, with one unused
-- carrier more after them than before.
pub config-IsConsistent : (config : Atsc3Config) → IsConsistent config
unfolding get_cp_samples get_first_active_carrier
config-IsConsistent config = ground (arith, numerator_half config.cp_length)

-- `get_default_config`
unfoldable pub get_default_config : Atsc3Config
get_default_config = record empty_config {
  fft_size = FftSize.fft_8k;
  cp_length = CpLength.cp_1024;
  pilot_pattern = PilotPattern.pp3;
  num_plps = 1;
  plps = set (empty_config.plps) 0 (record default_plp {
    plp_id = 0;
    modulation = Modulation.qam64;
    code_rate = CodeRate.rate_7_15;
    codeword_length = CodewordLength.long;
    ti_mode = TimeInterleaveMode.cti;
    valid = true;
  });
  valid = true;
}
