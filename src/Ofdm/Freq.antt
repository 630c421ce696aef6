-- ===== src/Ofdm/Freq.antt =====
-- The frequency deinterleaver, class `FreqDeinterleaver` of lib/ofdm/freq_deinterleaver.h and
-- lib/ofdm/freq_deinterleaver.cc. `none` is an access outside of a vector.
pub mod Laws
use usrp_atsc.Common.{
  ℕ, zero, suc, ◌+◌, ◌==◌, leb, ltb, if◌then◌else◌, Bool, true, false, not, ◌||◌, List, [], ◌∷◌,
  ◌++◌, length, take, drop, resize, Option, none, some,
}
use mathlib.Core.Option
use usrp_atsc.Common.Maybe.{◌>>=◌}
use usrp_atsc.Ofdm.Permutation.{inverse_table, SimdTier, gather}

pub record FreqDeinterleaver : Type 0 where
  pub fft_size : ℕ
  pub num_active_carriers : ℕ
  pub inv_permutation : List ℕ
  pub temp_buffer : List ℕ

-- The carriers of an FFT size; 0 is a size that is not known.
unfoldable pub carriers_for : ℕ → ℕ
carriers_for fft_size =
    if fft_size == 8192
    then 6913
    else (if fft_size == 16384 then 13825 else (if fft_size == 32768 then 27649 else 0))

-- The number of carriers, from the FFT size where it is not set.
unfoldable pub active_carriers : FreqDeinterleaver → ℕ
unfolding carriers_for
active_carriers d =
    if d.num_active_carriers == 0 then carriers_for d.fft_size else d.num_active_carriers

abbrev pub without_carriers : FreqDeinterleaver → FreqDeinterleaver
without_carriers d = record d { inv_permutation = []; temp_buffer = [] }

-- The rest of `compute_permutation`, with the number of carriers.
unfoldable pub carrier_table : FreqDeinterleaver → ℕ → Option FreqDeinterleaver
unfolding inverse_table
carrier_table d zero = some (without_carriers d)
carrier_table d (suc m) = do
  inv ← inverse_table d.inv_permutation (suc m)
  some (record d {
    num_active_carriers = suc m;
    inv_permutation = inv;
    temp_buffer = resize d.temp_buffer (suc m) 0;
  })

-- `compute_permutation`
unfoldable pub freq_compute_permutation : FreqDeinterleaver → Option FreqDeinterleaver
unfolding active_carriers carrier_table
freq_compute_permutation d = carrier_table d (active_carriers d)

-- `set_config`
unfoldable pub freq_set_config : FreqDeinterleaver → ℕ → ℕ → Option FreqDeinterleaver
unfolding freq_compute_permutation
freq_set_config d fft_size num_active_carriers =
    freq_compute_permutation
      (record d { fft_size = fft_size; num_active_carriers = num_active_carriers })

-- `FreqDeinterleaver(config)`
unfoldable pub new_freq_deinterleaver : ℕ → ℕ → Option FreqDeinterleaver
unfolding freq_compute_permutation
new_freq_deinterleaver fft_size num_active_carriers = freq_compute_permutation (record {
  fft_size = fft_size;
  num_active_carriers = num_active_carriers;
  inv_permutation = [];
  temp_buffer = [];
})

-- The search for a position in the table, from place `j` on.
unfoldable pub find_carrier : List ℕ → ℕ → ℕ → Option ℕ
find_carrier [] j input_pos = none
find_carrier (i ∷ inv) j input_pos =
    if i == input_pos then some j else find_carrier inv (j + 1) input_pos

abbrev pub found_or : ℕ → Option ℕ → ℕ
found_or input_pos none = input_pos
found_or input_pos (some j) = j

-- `interleaver_permutation`
unfoldable pub freq_interleaver_permutation : FreqDeinterleaver → ℕ → ℕ
unfolding find_carrier
freq_interleaver_permutation d input_pos =
    if leb d.num_active_carriers input_pos
    then input_pos
    else found_or input_pos (find_carrier d.inv_permutation 0 input_pos)

-- The test of both `deinterleave` functions for a table that is not there.
abbrev pub has_no_table : FreqDeinterleaver → Bool
has_no_table d =
    d.num_active_carriers == 0 || not (length d.inv_permutation == d.num_active_carriers)

-- `deinterleave`: the output buffer, which it leaves as it is where there is no table.
unfoldable pub freq_deinterleave : SimdTier → FreqDeinterleaver → List ℕ → List ℕ → Option (List ℕ)
unfolding gather
freq_deinterleave tier d input output = if has_no_table d then some output else (do
  out ← gather tier input d.inv_permutation
  some (out ++ drop d.num_active_carriers output))

-- `deinterleave_inplace`
unfoldable pub freq_deinterleave_inplace :
    SimdTier → FreqDeinterleaver → List ℕ → Option (List ℕ × FreqDeinterleaver)
unfolding gather
freq_deinterleave_inplace tier d carriers = if has_no_table d then some (carriers, d) else (do
  let temp = take d.num_active_carriers carriers
  out ← gather tier temp d.inv_permutation
  some (out ++ drop d.num_active_carriers carriers, record d { temp_buffer = temp }))

-- `compute_freq_interleaver_position`
unfoldable pub freq_interleaver_position : ℕ → ℕ → ℕ → Option ℕ
unfolding new_freq_deinterleaver find_carrier
freq_interleaver_position input_pos fft_size num_carriers =
    if leb num_carriers input_pos || num_carriers == 0 then some input_pos else (do
      deint ← new_freq_deinterleaver fft_size num_carriers
      some (found_or input_pos (find_carrier deint.inv_permutation 0 input_pos)))
