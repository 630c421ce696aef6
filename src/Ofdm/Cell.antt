-- ===== src/Ofdm/Cell.antt =====
-- The cell deinterleaver, class `CellDeinterleaver` of lib/ofdm/cell_deinterleaver.h and
-- lib/ofdm/cell_deinterleaver.cc. `none` is an access outside of a vector.
pub mod Laws
use usrp_atsc.Common.{
  ℕ, zero, suc, ◌+◌, ◌==◌, leb, ltb, if◌then◌else◌, Bool, true, false, ◌||◌, List, [], ◌∷◌, length,
  resize, Option, none, some,
}
use mathlib.Core.Option
use usrp_atsc.Common.Maybe.{◌>>=◌}
use usrp_atsc.Ofdm.Permutation.{
  next_power_of_two, bits_for, bit_reverse, inverse_table, SimdTier, gather,
}

-- `num_cells` is the only field of the configuration.
pub record CellDeinterleaver : Type 0 where
  pub num_cells : ℕ
  pub inv_permutation : List ℕ
  pub temp_buffer : List ℕ

abbrev pub without_table : CellDeinterleaver → CellDeinterleaver
without_table c = record c { inv_permutation = []; temp_buffer = [] }

-- `compute_permutation`
unfoldable pub cell_compute_permutation : CellDeinterleaver → ℕ → Option CellDeinterleaver
unfolding inverse_table
cell_compute_permutation c zero = some (without_table c)
cell_compute_permutation c (suc m) = do
  inv ← inverse_table c.inv_permutation (suc m)
  some (record c { inv_permutation = inv; temp_buffer = resize c.temp_buffer (suc m) 0 })

-- `CellDeinterleaver(config)`
unfoldable pub new_cell_deinterleaver : ℕ → Option CellDeinterleaver
unfolding cell_compute_permutation
new_cell_deinterleaver num_cells =
    let c : CellDeinterleaver = record {
      num_cells = num_cells;
      inv_permutation = [];
      temp_buffer = [];
    } in
    if ltb 0 num_cells then cell_compute_permutation c num_cells else some c

-- The size that `deinterleave` works with.
unfoldable pub cell_sized : CellDeinterleaver → ℕ → Option CellDeinterleaver
unfolding cell_compute_permutation
cell_sized c num_cells =
    if num_cells == length c.inv_permutation then some c else cell_compute_permutation c num_cells

-- `deinterleave`, in place. A null pointer is the empty list.
unfoldable pub cell_deinterleave :
    SimdTier → CellDeinterleaver → List ℕ → Option (List ℕ × CellDeinterleaver)
unfolding cell_sized gather
cell_deinterleave tier c [] = some ([], c)
cell_deinterleave tier c (x ∷ cells) = do
  sized ← cell_sized c (length (x ∷ cells))
  out ← gather tier (x ∷ cells) sized.inv_permutation
  some (out, record sized { temp_buffer = x ∷ cells })

-- `deinterleave` into another buffer.
unfoldable pub cell_deinterleave_into : SimdTier → CellDeinterleaver → List ℕ → Option (List ℕ)
unfolding gather
cell_deinterleave_into tier c [] = some []
cell_deinterleave_into tier c (x ∷ cells) =
    if length (x ∷ cells) == length c.inv_permutation
    then gather tier (x ∷ cells) c.inv_permutation
    else some (x ∷ cells)

-- `set_config`
unfoldable pub cell_set_config : CellDeinterleaver → ℕ → Option CellDeinterleaver
unfolding cell_compute_permutation
cell_set_config c num_cells =
    let changed = record c { num_cells = num_cells } in
    if ltb 0 num_cells
    then cell_compute_permutation changed num_cells
    else some (without_table changed)

-- The loop of `interleaver_permutation` and of `compute_cell_interleaver_position`: the reversal in
-- range that has number `left` from place `i` on.
unfoldable pub nth_reversed : ℕ → ℕ → ℕ → ℕ → ℕ → Option ℕ
unfolding bit_reverse
nth_reversed num_cells num_bits zero i left = none
nth_reversed num_cells num_bits (suc rounds) i left =
    let same = nth_reversed num_cells num_bits rounds (i + 1) left in
    let fewer : Option ℕ = elim left [
      | zero ↦ some (bit_reverse i num_bits)
      | suc k ↦ nth_reversed num_cells num_bits rounds (i + 1) k
    ] in
    if ltb (bit_reverse i num_bits) num_cells then fewer else same

-- `compute_cell_interleaver_position`
unfoldable pub cell_interleaver_position : ℕ → ℕ → ℕ
unfolding next_power_of_two bits_for nth_reversed
cell_interleaver_position input_pos num_cells =
    if num_cells == 0 || leb num_cells input_pos
    then input_pos
    else elim (nth_reversed num_cells (bits_for num_cells) (next_power_of_two num_cells) 0
        input_pos) [ none ↦ input_pos | some r ↦ r ]

-- `CellDeinterleaver::interleaver_permutation`
unfoldable pub cell_interleaver_permutation : ℕ → ℕ → ℕ
unfolding cell_interleaver_position
cell_interleaver_permutation input_pos num_cells = cell_interleaver_position input_pos num_cells
