-- ===== src/Ofdm/TimeDeinterleaver.antt =====
-- The convolutional time deinterleaver, class `TimeDeinterleaver` of lib/ofdm/time_deinterleaver.h
-- and lib/ofdm/time_deinterleaver.cc. `none` is an access outside of a vector. A cell is its number.
pub mod Rows
pub mod Queue
pub mod Delay
pub mod Blocks
pub mod Start
pub mod Faults
use usrp_atsc.Common.{
  ℕ, zero, suc, ◌+◌, ◌-◌, ◌*◌, ◌%◌, ◌^◌, ◌==◌, ltb, if◌then◌else◌, Bool, true, false, ◌&&◌, ◌||◌,
  List, [], ◌∷◌, length, get_or, get_elem?, set, map, replicate, resize, Option, none, some,
}
use Prim.Native.Nat.{bit_and}
use mathlib.Core.Option
use usrp_atsc.Common.Maybe.{◌>>=◌}
use usrp_atsc.Config.{TimeInterleaveMode}

-- `depth` is a `uint8_t`.
pub record TimeDeinterleaverConfig : Type 0 where
  pub mode : TimeInterleaveMode
  pub depth : ℕ
  pub num_ti_blocks : ℕ
  pub cells_per_block : ℕ

pub record TimeDeinterleaver : Type 0 where
  pub config : TimeDeinterleaverConfig
  pub num_rows : ℕ
  pub row_mask : ℕ
  pub delay_lines : List (List ℕ)
  pub delay_masks : List ℕ
  pub write_pos : List ℕ
  pub settling_blocks : ℕ
  pub blocks_processed : ℕ

-- `is_power_of_two`
unfoldable pub is_power_of_two : ℕ → Bool
is_power_of_two n = ltb 0 n && (bit_and n (n - 1) == 0)

unfoldable pub is_off : TimeInterleaveMode → Bool
is_off TimeInterleaveMode.off = true
is_off _ = false

-- `config_.depth == 0 || config_.mode == NONE`
unfoldable pub is_bypassed : TimeDeinterleaverConfig → Bool
unfolding is_off
is_bypassed config = config.depth == 0 || is_off config.mode

-- The delay of a row.
abbrev pub row_delay : ℕ → ℕ → ℕ → ℕ
row_delay num_rows cells_per_block row = (num_rows - 1 - row) * cells_per_block % 2 ^ 64

-- The loop of `init_delay_lines` from `row` on: the delay lines. A line keeps what it holds.
unfoldable pub resize_lines : ℕ → ℕ → ℕ → List (List ℕ) → List (List ℕ)
resize_lines num_rows cells_per_block row [] = []
resize_lines num_rows cells_per_block row (line ∷ lines) =
    let delay = row_delay num_rows cells_per_block row in
    (if ltb 0 delay then resize line delay 0 else [])
    ∷ resize_lines num_rows cells_per_block (row + 1) lines

-- And the masks, which it sets to the delays.
unfoldable pub set_masks : ℕ → ℕ → ℕ → List ℕ → List ℕ
set_masks num_rows cells_per_block row [] = []
set_masks num_rows cells_per_block row (m ∷ masks) =
    row_delay num_rows cells_per_block row ∷ set_masks num_rows cells_per_block (row + 1) masks

-- `init_delay_lines`
unfoldable pub init_delay_lines : TimeDeinterleaver → TimeDeinterleaver
unfolding is_bypassed resize_lines set_masks
init_delay_lines d =
    let rows = d.config.depth + 1 in
    if is_bypassed d.config
    then record d {
      num_rows = 1;
      row_mask = 0;
      settling_blocks = 0;
      delay_lines = [];
      delay_masks = [];
      write_pos = [];
    }
    else record d {
      num_rows = rows;
      row_mask = if is_power_of_two rows then rows - 1 else 0;
      delay_lines = resize_lines rows d.config.cells_per_block 0 (resize d.delay_lines rows []);
      delay_masks = set_masks rows d.config.cells_per_block 0 (resize d.delay_masks rows 0);
      write_pos = resize d.write_pos rows 0;
      settling_blocks = rows - 1;
      blocks_processed = 0;
    }

-- `TimeDeinterleaver(config)`
unfoldable pub new_deinterleaver : TimeDeinterleaverConfig → TimeDeinterleaver
unfolding init_delay_lines
new_deinterleaver config = init_delay_lines (record {
  config = config;
  num_rows = 0;
  row_mask = 0;
  delay_lines = [];
  delay_masks = [];
  write_pos = [];
  settling_blocks = 0;
  blocks_processed = 0;
})

-- `set_config`
unfoldable pub set_config : TimeDeinterleaver → TimeDeinterleaverConfig → TimeDeinterleaver
unfolding init_delay_lines
set_config d config = init_delay_lines (record d { config = config })

-- The row of a cell.
unfoldable pub row_of : TimeDeinterleaver → ℕ → ℕ
row_of d cell_index =
    if d.row_mask == 0 then cell_index % d.num_rows else bit_and cell_index d.row_mask

-- `process_cell` on a line that is not empty: the value at the write position, which is replaced.
unfoldable pub delay_cell : TimeDeinterleaver → ℕ → ℕ → List ℕ → Option (ℕ × TimeDeinterleaver)
delay_cell d input_cell row line = do
  pos ← get_elem? d.write_pos row
  output_cell ← get_elem? line pos
  some (
    output_cell,
    record d {
      delay_lines = set d.delay_lines row (set line pos input_cell);
      write_pos = set d.write_pos row (if ltb (pos + 1) (length line) then pos + 1 else 0);
    },
  )

-- The rest of `process_cell`, with the line of the row.
unfoldable pub pass_line : TimeDeinterleaver → ℕ → ℕ → List ℕ → Option (ℕ × TimeDeinterleaver)
unfolding delay_cell
pass_line d input_cell row [] = some (input_cell, d)
pass_line d input_cell row (c ∷ line) = delay_cell d input_cell row (c ∷ line)

-- `process_cell`
unfoldable pub process_cell : TimeDeinterleaver → ℕ → ℕ → Option (ℕ × TimeDeinterleaver)
unfolding row_of pass_line
process_cell d input_cell cell_index = do
  line ← get_elem? d.delay_lines (row_of d cell_index)
  pass_line d input_cell (row_of d cell_index) line

-- The loop of `process` from cell `i` on.
unfoldable pub process_cells : TimeDeinterleaver → ℕ → List ℕ → Option (List ℕ × TimeDeinterleaver)
unfolding process_cell
process_cells d i [] = some ([], d)
process_cells d i (x ∷ xs) = do
  r ← process_cell d x i
  s ← process_cells r.1 (i + 1) xs
  some (r.0 ∷ s.0, s.1)

abbrev pub count_block : TimeDeinterleaver → TimeDeinterleaver
count_block d = record d { blocks_processed = (d.blocks_processed + 1) % 2 ^ 64 }

-- `process`. A null pointer is the empty list.
unfoldable pub process_block : TimeDeinterleaver → List ℕ → Option (List ℕ × TimeDeinterleaver)
unfolding process_cells is_bypassed
process_block d [] = some ([], d)
process_block d (x ∷ xs) =
    if is_bypassed d.config
    then some (x ∷ xs, count_block d)
    else (process_cells d 0 (x ∷ xs) >>= λ r. some (r.0, count_block r.1))

-- `process_batched`
unfoldable pub process_batched : TimeDeinterleaver → List ℕ → Option (List ℕ × TimeDeinterleaver)
process_batched d input = process_block d input

-- `is_settled`
unfoldable pub is_settled : TimeDeinterleaver → Bool
is_settled d = if d.settling_blocks == 0 then true else ltb d.settling_blocks d.blocks_processed

-- `reset`
unfoldable pub reset_deinterleaver : TimeDeinterleaver → TimeDeinterleaver
reset_deinterleaver d = record d {
  delay_lines = map (λ line. replicate (length line) 0) d.delay_lines;
  write_pos = replicate (length d.write_pos) 0;
  blocks_processed = 0;
}
