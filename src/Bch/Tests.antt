-- ===== src/Bch/Tests.antt =====
-- Tests of the BCH decoder, with the first powers of α and the first logarithms as tables, and the
-- theorems at such inputs.
use usrp_atsc.Common.{
  ℕ, zero, suc, ◌+◌, ◌/◌, ◌*◌, ◌≤◌, ◌<◌, ◌≡◌, refl, arith, min, true, false, List, [], ◌∷◌,
  get_elem?, replicate, Option, none, some,
}
use mathlib.Core.Option
use usrp_atsc.Bch.Bits.{copy_first}
use usrp_atsc.Bch.Field.{GfTables, times_alpha, fill_tables, gf_mul, gf_div, gf_inv}
use usrp_atsc.Bch.State.{get_atsc3_bch_config, BchResult, BchDecoder, set_bch_config, reset_bch}
use usrp_atsc.Bch.Syndromes.{syndrome_loop}
use usrp_atsc.Bch.Massey.{berlekamp_massey}
use usrp_atsc.Bch.Chien.{degree_loop}
use usrp_atsc.Bch.Decode.{bch_decode, bch_decode_into}
use usrp_atsc.Bch.Sound.{IsCorrected, bch_decode-IsCorrected}
use usrp_atsc.Bch.Faults.{bch_decode-out_of_bounds}
use usrp_atsc.Bch.Stale.{berlekamp_massey-stale}

powers : ℕ → ℕ → List ℕ
unfolding times_alpha
powers zero x = []
powers (suc n) x = x ∷ powers n (times_alpha x)

abbrev tables : GfTables
unfolding powers
tables = record { gf_exp = powers 200 1; gf_log = 0 ∷ 0 ∷ 1 ∷ [] }

abbrev decoder : ℕ → ℕ → List ℕ → BchDecoder
decoder length_bits t locator = record {
  config = record { codeword_length = length_bits; info_length = length_bits; t = t; m = 16 };
  initialized = true;
  tables = tables;
  syndromes = replicate (2 * t + 1) 0;
  error_locator = locator;
  error_positions = [];
  working_bits = replicate ((length_bits + 7) / 8) 0;
}

-- The tables of the constructor begin in this way.
first_powers :
    (fill_tables 3 0 1 (record { gf_exp = replicate 4 0; gf_log = replicate 5 0 })).gf_exp
    ≡ 1 ∷ 2 ∷ 4 ∷ 0 ∷ []
unfolding fill_tables
first_powers = refl

arithmetic :
    (times_alpha 34821 ≡ 1)
    × (gf_mul tables 2 2 ≡ some 4)
    × (gf_div tables 2 2 ≡ some 1)
    × (gf_inv (record { gf_exp = 5 ∷ []; gf_log = 0 ∷ 65535 ∷ [] }) 1 ≡ some 5)
unfolding powers times_alpha gf_mul gf_div gf_inv
arithmetic = (refl, refl, refl, refl)

-- One error, at position 0, in a word of zeros.
abbrev one_error : BchDecoder
one_error = decoder 8 2 (0 ∷ 0 ∷ 0 ∷ 0 ∷ [])

corrected : BchResult
corrected = record {
  decoded_bits = 0 ∷ [];
  errors_corrected = 1;
  success = true;
  was_valid = false;
}

abbrev corrected_by : BchDecoder → Option BchResult
corrected_by d = Option.map (λ o. o.0) (bch_decode d (some (128 ∷ [])) 8)

first_bit : corrected_by one_error ≡ some corrected
unfolding bch_decode corrected powers
first_bit = refl

abbrev after_one : BchDecoder
after_one = record one_error {
  error_locator = 1 ∷ 1 ∷ 0 ∷ 0 ∷ [];
  error_positions = 0 ∷ [];
  working_bits = 0 ∷ [];
}

bch_decode-IsCorrected_example :
    (start : List ℕ) × (copy_first ((min 8 8 + 7) / 8) (128 ∷ []) (0 ∷ []) ≡ some start)
    × IsCorrected one_error (min 8 8) start corrected
unfolding bch_decode corrected powers
bch_decode-IsCorrected_example =
    bch_decode-IsCorrected one_error after_one (128 ∷ []) 8 corrected refl refl

-- A word of 33 bits whose syndromes are 0 up to the fourth.
abbrev undetected : List ℕ
undetected = 243 ∷ 164 ∷ 229 ∷ 80 ∷ 128 ∷ []

abbrev three_errors : BchDecoder
three_errors = decoder 33 3 (replicate 5 0)

four_zeros : (j : ℕ) → 1 ≤ j → j < 5 → syndrome_loop tables undetected j 33 0 0 ≡ some 0
unfolding syndrome_loop powers
four_zeros zero h h' = absurd (omega arith)
four_zeros (suc zero) h h' = refl
four_zeros (suc (suc zero)) h h' = refl
four_zeros (suc (suc (suc zero))) h h' = refl
four_zeros (suc (suc (suc (suc zero)))) h h' = refl
four_zeros (suc (suc (suc (suc (suc j))))) h h' = absurd (omega arith)

fifth : syndrome_loop tables undetected 5 33 0 0 ≡ some 36965
unfolding syndrome_loop powers
fifth = refl

copied : copy_first ((33 + 7) / 8) undetected (replicate 5 0) ≡ some undetected
unfolding copy_first
copied = refl

bch_decode-out_of_bounds_example : bch_decode three_errors (some undetected) 33 ≡ none
bch_decode-out_of_bounds_example =
    bch_decode-out_of_bounds three_errors undetected undetected 33 5 36965 (omega arith)
      (omega arith) copied four_zeros fifth (omega arith) (omega arith) (omega arith)

-- The same word with one error, where the decoder has the error locator of a word with errors at the positions
-- 0 and 1: it is not corrected.
abbrev earlier_locator : List ℕ
earlier_locator = 1 ∷ 3 ∷ 2 ∷ 0 ∷ []

abbrev all_powers : GfTables
unfolding powers
all_powers = record { gf_exp = powers 65535 1; gf_log = 0 ∷ 0 ∷ 1 ∷ [] }

abbrev used_decoder : BchDecoder
used_decoder = record (decoder 1 2 earlier_locator) { tables = all_powers }

not_corrected :
    Option.map (λ o. o.0.success) (bch_decode used_decoder (some (128 ∷ [])) 1) ≡ some false
unfolding bch_decode powers
not_corrected = refl

berlekamp_massey-stale_example : (get_elem? {A = ℕ} (1 ∷ 1 ∷ 2 ∷ 0 ∷ []) 2 ≡ some 2) × (1 < 2)
unfolding berlekamp_massey degree_loop powers
berlekamp_massey-stale_example =
    berlekamp_massey-stale tables 2 (0 ∷ 1 ∷ 1 ∷ 1 ∷ 1 ∷ []) earlier_locator (1 ∷ 1 ∷ 2 ∷ 0 ∷ []) 1
      2 2 2 refl refl (omega arith) (omega arith) (omega arith) refl

configurations :
    ((get_atsc3_bch_config true).info_length ≡ 14208)
    × ((set_bch_config (decoder 8 2 []) (get_atsc3_bch_config true)).config.t ≡ 12)
    × ((reset_bch after_one).error_locator ≡ replicate 4 0)
unfolding get_atsc3_bch_config set_bch_config reset_bch
configurations = (refl, refl, refl)

into_buffer :
    Option.map (λ o. o.0) (bch_decode_into one_error (some (128 ∷ [])) 8 (some (7 ∷ 9 ∷ [])))
    ≡ some (some 1, some (0 ∷ 9 ∷ []))
unfolding bch_decode_into powers
into_buffer = refl
