-- ===== src/Ldpc/Expand.antt =====
-- `SparseMatrix` with its lists of rows and columns, and `LdpcMatrixGenerator::expand_base_matrix`.
use usrp_atsc.Common.{
  ℕ, zero, suc, ◌+◌, ◌*◌, ◌%◌, ◌^◌, leb, ◌-◌, ◌==◌, ◌&&◌, true, false, length, if◌then◌else◌, Bool,
  List, [], ◌∷◌, ◌++◌, map, get_elem?, set, replicate, Option, none, some,
}
use usrp_atsc.Common.Maybe.{◌>>=◌}
use usrp_atsc.Ldpc.Base.{LdpcBaseMatrix, is_valid_base, get_base_matrix}

pub record SparseMatrix : Type 0 where
  pub num_rows : ℕ
  pub num_cols : ℕ
  pub row_indices : List (List ℕ)
  pub col_indices : List (List ℕ)
  pub info_bits : ℕ

abbrev pub no_matrix : SparseMatrix
no_matrix = record { num_rows = 0; num_cols = 0; row_indices = []; col_indices = []; info_bits = 0 }

-- `push_back` on one of the vectors. `none` is an access out of bounds.
unfoldable pub push_index : List (List ℕ) → ℕ → ℕ → Option (List (List ℕ))
push_index lists i v = do list ← get_elem? lists i; some (set lists i (list ++ v ∷ []))

-- The loop over a block: the rounds from `i` on.
unfoldable pub block_loop : ℕ → ℕ → ℕ → ℕ → ℕ → ℕ → SparseMatrix → Option SparseMatrix
unfolding push_index
block_loop q br bc shift zero i h = some h
block_loop q br bc shift (suc n) i h = do
  let row = br * q + i
  let col = bc * q + (i + shift) % q
  rows ← push_index h.row_indices row (col % 2 ^ 16)
  cols ← push_index h.col_indices col (row % 2 ^ 16)
  block_loop q br bc shift n (i + 1) (record h { row_indices = rows; col_indices = cols })

-- One entry of the base matrix.
unfoldable pub expand_entry : ℕ → ℕ → ℕ → Option ℕ → SparseMatrix → Option SparseMatrix
unfolding block_loop
expand_entry q br bc none h = some h
expand_entry q br bc (some shift) h = block_loop q br bc shift q 0 h

-- The loop over the columns of a row: the rounds from `bc` on.
unfoldable pub cols_loop :
    List (List (Option ℕ)) → ℕ → ℕ → ℕ → ℕ → SparseMatrix → Option SparseMatrix
unfolding expand_entry
cols_loop entries q br zero bc h = some h
cols_loop entries q br (suc n) bc h = do
  row ← get_elem? entries br
  entry ← get_elem? row bc
  next ← expand_entry q br bc entry h
  cols_loop entries q br n (bc + 1) next

unfoldable pub rows_loop :
    List (List (Option ℕ)) → ℕ → ℕ → ℕ → ℕ → SparseMatrix → Option SparseMatrix
unfolding cols_loop
rows_loop entries q num_cols zero br h = some h
rows_loop entries q num_cols (suc n) br h = do
  next ← cols_loop entries q br num_cols 0 h
  rows_loop entries q num_cols n (br + 1) next

-- `std::sort`
unfoldable pub insert : ℕ → List ℕ → List ℕ
insert x [] = x ∷ []
insert x (y ∷ ys) = let rest = insert x ys in if leb x y then x ∷ y ∷ ys else y ∷ rest

unfoldable pub sort : List ℕ → List ℕ
unfolding insert
sort [] = []
sort (x ∷ xs) = insert x (sort xs)

-- `expand_base_matrix`
unfoldable pub empty_matrix : LdpcBaseMatrix → ℕ → SparseMatrix
empty_matrix base info_bits = record {
  num_rows = base.num_block_rows * base.expansion_factor;
  num_cols = base.num_block_cols * base.expansion_factor;
  row_indices = replicate (base.num_block_rows * base.expansion_factor) [];
  col_indices = replicate (base.num_block_cols * base.expansion_factor) [];
  info_bits = info_bits;
}

unfoldable pub expand_base_matrix : LdpcBaseMatrix → ℕ → Option SparseMatrix
unfolding is_valid_base rows_loop sort empty_matrix
expand_base_matrix base info_bits =
    if is_valid_base base
    then (do
      h ←
          rows_loop base.entries base.expansion_factor base.num_block_cols base.num_block_rows 0
            (empty_matrix base info_bits)
      some
          (record h { row_indices = map sort h.row_indices; col_indices = map sort h.col_indices }))
    else some no_matrix

-- `kLdpcParams`, the long ones first, and `get_ldpc_info_bits`, with the number of the rate.
abbrev pub ldpc_params : List (ℕ × ℕ)
ldpc_params =
    (8640, 2160)
    ∷ (12960, 3240)
    ∷ (17280, 4320)
    ∷ (21600, 5400)
    ∷ (25920, 6480)
    ∷ (30240, 7560)
    ∷ (34560, 8640)
    ∷ (38880, 9720)
    ∷ (43200, 10800)
    ∷ (47520, 11880)
    ∷ (51840, 12960)
    ∷ (56160, 14040)
    ∷ []

unfoldable pub get_ldpc_info_bits : Bool → ℕ → ℕ
get_ldpc_info_bits short_codeword rate_idx = elim (get_elem? ldpc_params rate_idx) [
  | none ↦ 0
  | some params ↦ if short_codeword then params.1 else params.0
]

-- `generate`
unfoldable pub generate : ℕ → Bool → Option SparseMatrix
unfolding get_base_matrix expand_base_matrix get_ldpc_info_bits
generate rate_idx short_codeword = do
  base ← get_base_matrix rate_idx short_codeword
  expand_base_matrix base (get_ldpc_info_bits short_codeword rate_idx)

-- `validate_matrix`
unfoldable pub none_empty : List (List ℕ) → Bool
none_empty [] = true
none_empty (row ∷ rows) = if length row == 0 then false else none_empty rows

unfoldable pub validate_matrix : SparseMatrix → ℕ → Bool → Bool
unfolding get_ldpc_info_bits none_empty
validate_matrix h rate_idx short_codeword =
    let expected_n = if short_codeword then 16200 else 64800 in
    let expected_k = get_ldpc_info_bits short_codeword rate_idx in
    let expected_m = expected_n - expected_k in
    h.num_cols == expected_n
    && (h.num_rows == expected_m
        && (h.info_bits == expected_k
            && (length h.row_indices == expected_m
                && (length h.col_indices == expected_n && none_empty h.row_indices))))
