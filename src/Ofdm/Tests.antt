-- ===== src/Ofdm/Tests.antt =====
-- Runs of the deinterleavers at concrete inputs.
use usrp_atsc.Common.{
  ◌<◌, ℕ, ◌≡◌, refl, arith, true, false, List, [], ◌∷◌, length, get_or, map, none, some,
}
use usrp_atsc.Common.Maybe.{◌>>=◌}
use usrp_atsc.Config.{TimeInterleaveMode}
use usrp_atsc.Ofdm.Permutation.{inverse_table, SimdTier, gather, gather_scalar}
use usrp_atsc.Ofdm.Permutation.Gather.{gather-gather_scalar}
use usrp_atsc.Ofdm.Cell.{CellDeinterleaver, cell_deinterleave, cell_interleaver_position}
use usrp_atsc.Ofdm.Cell.Laws.{IsSized-none, cell_deinterleave-twice}
use usrp_atsc.Ofdm.Freq.{
  FreqDeinterleaver, active_carriers, new_freq_deinterleaver, freq_deinterleave,
  freq_deinterleave_inplace, freq_interleaver_permutation, freq_interleaver_position,
}
use usrp_atsc.Ofdm.Freq.Laws.{freq_deinterleave-freq_interleaver_permutation}
use usrp_atsc.Ofdm.TimeDeinterleaver.{
  TimeDeinterleaver, TimeDeinterleaverConfig, new_deinterleaver, set_config, process_block,
  is_settled, reset_deinterleaver, is_bypassed, is_power_of_two,
}
use usrp_atsc.Ofdm.TimeDeinterleaver.Delay.{row_queue}
use usrp_atsc.Ofdm.TimeDeinterleaver.Blocks.{process_blocks}
use usrp_atsc.Ofdm.TimeDeinterleaver.Faults.{process_block-set_config}

abbrev two_rows : TimeDeinterleaverConfig
two_rows = record {
  mode = TimeInterleaveMode.cti;
  depth = 1;
  num_ti_blocks = 2;
  cells_per_block = 4;
}

abbrev shorter : TimeDeinterleaverConfig
shorter = record two_rows { cells_per_block = 2 }

abbrev three_blocks : List (List ℕ)
three_blocks = (1 ∷ 2 ∷ 3 ∷ 4 ∷ []) ∷ (5 ∷ 6 ∷ 7 ∷ 8 ∷ []) ∷ (9 ∷ 10 ∷ 11 ∷ 12 ∷ []) ∷ []

-- The cells of the even places come out two blocks later.
three_blocks_out : List (List ℕ)
unfolding process_blocks new_deinterleaver is_power_of_two
three_blocks_out = elim (process_blocks (new_deinterleaver two_rows) three_blocks) [
  | none ↦ []
  | some r ↦ r.0
]

three_blocks_out_lem :
    three_blocks_out ≡ (0 ∷ 2 ∷ 0 ∷ 4 ∷ []) ∷ (0 ∷ 6 ∷ 0 ∷ 8 ∷ []) ∷ (1 ∷ 10 ∷ 3 ∷ 12 ∷ []) ∷ []
unfolding three_blocks_out
three_blocks_out_lem = refl

-- The deinterleaver after a block of six cells, with its write position in row 0 at 3.
abbrev six_cells : List ℕ
six_cells = 1 ∷ 2 ∷ 3 ∷ 4 ∷ 5 ∷ 6 ∷ []

abbrev after_six : TimeDeinterleaver
after_six = elim (process_block (new_deinterleaver two_rows) six_cells) [
  | none ↦ new_deinterleaver two_rows
  | some r ↦ r.1
]

process_block-set_config_example : process_block (set_config after_six shorter) (7 ∷ []) ≡ none
unfolding is_bypassed process_block is_power_of_two new_deinterleaver
process_block-set_config_example =
    process_block-set_config after_six shorter 7 3 [] refl (omega arith) refl (omega arith)
      (omega arith)

-- After two blocks of six cells, one more than the settling count, the state counts as settled, and
-- the line of row 0 is full of cells; `reset` clears it.
after_two : TimeDeinterleaver
unfolding process_blocks new_deinterleaver is_power_of_two
after_two = elim (process_blocks (new_deinterleaver two_rows) (six_cells ∷ six_cells ∷ [])) [
  | none ↦ new_deinterleaver two_rows
  | some r ↦ r.1
]

after_two_lem :
    (is_settled after_two ≡ true)
    × (row_queue after_two 0 ≡ 5 ∷ 1 ∷ 3 ∷ 5 ∷ [])
    × (row_queue (reset_deinterleaver after_two) 0 ≡ 0 ∷ 0 ∷ 0 ∷ 0 ∷ [])
    × (is_settled (reset_deinterleaver after_two) ≡ false)
unfolding after_two is_settled reset_deinterleaver
after_two_lem = (refl, refl, refl, refl)

gather_with_ssse3 :
    gather SimdTier.ssse3 six_cells (5 ∷ 0 ∷ 3 ∷ []) ≡ gather_scalar six_cells (5 ∷ 0 ∷ 3 ∷ [])
gather_with_ssse3 = gather-gather_scalar SimdTier.ssse3 six_cells (5 ∷ 0 ∷ 3 ∷ [])

abbrev no_table : CellDeinterleaver
no_table = record { num_cells = 0; inv_permutation = []; temp_buffer = [] }

twice_six_cells :
    (d : CellDeinterleaver) × ((cell_deinterleave SimdTier.avx2 no_table six_cells >>= λ r.
    cell_deinterleave SimdTier.avx2 r.1 r.0)
      ≡ some (six_cells, d))
twice_six_cells =
    cell_deinterleave-twice SimdTier.avx2 no_table six_cells 5 (omega arith)
      (IsSized-none no_table refl) refl

freq_deinterleave-freq_interleaver_permutation_example :
    (d : FreqDeinterleaver) × (out : List ℕ) × (new_freq_deinterleaver 8192 6 ≡ some d)
    × (freq_deinterleave SimdTier.scalar d six_cells six_cells ≡ some out)
    × (freq_deinterleave_inplace SimdTier.scalar d six_cells
        ≡ some (out, record d { temp_buffer = six_cells }))
    × (length out ≡ 6)
    × (freq_interleaver_permutation d 1 < 6)
    × (get_or out (freq_interleaver_permutation d 1) 0 ≡ get_or six_cells 1 0)
unfolding active_carriers
freq_deinterleave-freq_interleaver_permutation_example =
    freq_deinterleave-freq_interleaver_permutation SimdTier.scalar 8192 6 5 six_cells six_cells 1
      refl (omega arith) refl refl (omega arith)

-- The table for five cells and the position function, which disagree at places 3 and 4.
five_table : inverse_table [] 5 ≡ some (0 ∷ 4 ∷ 2 ∷ 3 ∷ 1 ∷ [])
unfolding inverse_table
five_table = refl

five_positions :
    map (λ i. cell_interleaver_position i 5) (0 ∷ 1 ∷ 2 ∷ 3 ∷ 4 ∷ []) ≡ 0 ∷ 4 ∷ 2 ∷ 1 ∷ 3 ∷ []
unfolding cell_interleaver_position
five_positions = refl

five_carriers : freq_interleaver_position 4 8192 5 ≡ some 1
unfolding freq_interleaver_position
five_carriers = refl
