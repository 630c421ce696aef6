-- ===== src/Ldpc/Base.antt =====
-- `LdpcBaseMatrix`, the tables of code parameters and `generate_atsc3_base_matrix`. An entry is the shift of
-- a block, and `none` is the entry -1.
use usrp_atsc.Common.{
  ℕ, zero, suc, ◌+◌, ◌-◌, ◌*◌, ◌/◌, ◌%◌, ◌==◌, ltb, if◌then◌else◌, Bool, ◌&&◌, ◌||◌, List, [], ◌∷◌,
  length, get_elem?, set, replicate, Option, none, some,
}
use usrp_atsc.Common.Maybe.{◌>>=◌}

pub record LdpcBaseMatrix : Type 0 where
  pub num_block_rows : ℕ
  pub num_block_cols : ℕ
  pub expansion_factor : ℕ
  pub entries : List (List (Option ℕ))

abbrev pub no_base : LdpcBaseMatrix
no_base = record { num_block_rows = 0; num_block_cols = 0; expansion_factor = 0; entries = [] }

-- `is_valid`
unfoldable pub is_valid_base : LdpcBaseMatrix → Bool
is_valid_base b =
    ltb 0 b.num_block_rows
    && (ltb 0 b.num_block_cols
        && (ltb 0 b.expansion_factor && length b.entries == b.num_block_rows))

pub record LdpcCodeSpec : Type 0 where
  pub num_block_rows : ℕ
  pub num_block_cols : ℕ
  pub row_weight : ℕ

abbrev code_spec : ℕ → ℕ → LdpcCodeSpec
code_spec rows weight = record { num_block_rows = rows; num_block_cols = 180; row_weight = weight }

-- `kLongCodeSpecs`, which has the same numbers of blocks as `kShortCodeSpecs`.
abbrev pub code_specs : List LdpcCodeSpec
code_specs =
    code_spec 156 6
    ∷ code_spec 144 6
    ∷ code_spec 132 7
    ∷ code_spec 120 7
    ∷ code_spec 108 8
    ∷ code_spec 96 8
    ∷ code_spec 84 9
    ∷ code_spec 72 10
    ∷ code_spec 60 11
    ∷ code_spec 48 13
    ∷ code_spec 36 16
    ∷ code_spec 24 22
    ∷ []

-- The loop of the systematic part over the columns of a row, with the connections made so far.
unfoldable pub systematic_loop :
    LdpcCodeSpec → ℕ → ℕ → ℕ → ℕ → ℕ → ℕ → List (Option ℕ) → ℕ × List (Option ℕ)
systematic_loop spec q rate_idx row zero col connections entries = (connections, entries)
systematic_loop spec q rate_idx row (suc n) col connections entries =
    let connects = (row + col + rate_idx) % 3 == 0 || (row * 2 + col) % 5 == 0 in
    let shift = (row * 17 + col * 13 + rate_idx * 7) % q in
    let connected =
      systematic_loop spec q rate_idx row n (col + 1) (connections + 1)
        (set entries col (some shift)) in
    let skipped = systematic_loop spec q rate_idx row n (col + 1) connections entries in
    if ltb connections (spec.row_weight - 1)
    then (if connects then connected else skipped)
    else (connections, entries)

-- The loop that ensures a minimum of connections, with what is missing. Where its place is taken, nothing
-- changes and the loop does not end, which is `none`, as is a read out of bounds.
unfoldable pub minimum_loop : ℕ → ℕ → ℕ → ℕ → ℕ → List (Option ℕ) → Option (List (Option ℕ))
minimum_loop q info_blocks row zero connections entries = some entries
minimum_loop q info_blocks row (suc missing) connections entries =
    let col = (row * 7 + connections * 11) % info_blocks in
    do
      entry ← get_elem? entries col
      elim entry [
        | some shift ↦ none
        | none ↦
            minimum_loop q info_blocks row missing (connections + 1)
              (set entries col (some ((row + col + connections) % q)))
      ]

-- The staircase of the parity part, for one row.
unfoldable pub staircase : LdpcCodeSpec → ℕ → ℕ → ℕ → List (Option ℕ) → List (Option ℕ)
staircase spec q info_blocks row entries =
    let parity_col = info_blocks + row in
    let diagonal =
      if ltb parity_col spec.num_block_cols then set entries parity_col (some 0) else entries in
    if ltb 0 row && ltb parity_col spec.num_block_cols
    then set diagonal (parity_col - 1) (some (row * 3 % q))
    else diagonal

-- A row of entries: no step of the code for one row looks at another.
unfoldable pub base_row : LdpcCodeSpec → ℕ → ℕ → ℕ → Option (List (Option ℕ))
unfolding systematic_loop minimum_loop staircase
base_row spec q rate_idx row =
    let info_blocks = spec.num_block_cols - spec.num_block_rows in
    let systematic =
      systematic_loop spec q rate_idx row info_blocks 0 0 (replicate spec.num_block_cols none) in
    do
      entries ←
          minimum_loop q info_blocks row (spec.row_weight / 2 - systematic.0) systematic.0
            systematic.1
      some (staircase spec q info_blocks row entries)

unfoldable pub base_rows : LdpcCodeSpec → ℕ → ℕ → ℕ → ℕ → Option (List (List (Option ℕ)))
unfolding base_row
base_rows spec q rate_idx zero row = some []
base_rows spec q rate_idx (suc n) row = do
  first ← base_row spec q rate_idx row
  rest ← base_rows spec q rate_idx n (row + 1)
  some (first ∷ rest)

unfoldable pub generate_atsc3_base_matrix : LdpcCodeSpec → ℕ → ℕ → Option LdpcBaseMatrix
unfolding base_rows
generate_atsc3_base_matrix spec q rate_idx = do
  entries ← base_rows spec q rate_idx spec.num_block_rows 0
  some (record {
    num_block_rows = spec.num_block_rows;
    num_block_cols = spec.num_block_cols;
    expansion_factor = q;
    entries = entries;
  })

-- `get_base_matrix`, with the number of the rate.
unfoldable pub get_base_matrix : ℕ → Bool → Option LdpcBaseMatrix
unfolding generate_atsc3_base_matrix
get_base_matrix rate_idx short_codeword = elim (get_elem? code_specs rate_idx) [
  | none ↦ some no_base
  | some spec ↦ generate_atsc3_base_matrix spec (if short_codeword then 90 else 360) rate_idx
]
