-- ===== src/Ldpc/Tests.antt =====
-- Tests of the parity check matrices, and the theorem at a small base matrix.
use usrp_atsc.Common.{
  zero, suc, ◌*◌, ◌<◌, ◌≡◌, ◌-◌, get_or, if◌then◌else◌, refl, arith, true, false, ◌∷◌, [], length,
  none, some,
}
use mathlib.Core.Option
use usrp_atsc.Ldpc.Base.{LdpcBaseMatrix, is_valid_base, get_base_matrix, base_row}
use usrp_atsc.Ldpc.Expand.{
  SparseMatrix, expand_base_matrix, get_ldpc_info_bits, generate, validate_matrix, no_matrix,
}
use usrp_atsc.Ldpc.Generate.{generate-IsTransposed}
use usrp_atsc.Ldpc.Transposed.{IsTransposed, IsShaped, expand_base_matrix-IsTransposed}

abbrev small : LdpcBaseMatrix
small = record {
  num_block_rows = 1;
  num_block_cols = 2;
  expansion_factor = 3;
  entries = (some 2 ∷ some 0 ∷ []) ∷ [];
}

small_expanded :
    Option.map (λ h. h.col_indices) (expand_base_matrix small 3)
    ≡ some ((1 ∷ []) ∷ (2 ∷ []) ∷ (0 ∷ []) ∷ (0 ∷ []) ∷ (1 ∷ []) ∷ (2 ∷ []) ∷ [])
unfolding expand_base_matrix
small_expanded = refl

small-IsShaped : IsShaped small
unfolding is_valid_base
small-IsShaped = record {
  valid = refl;
  tall = refl;
  wide = λ br h.
      elim br as (λ k. k < 1 → length (get_or small.entries k []) ≡ 2) [
        | zero ↦ λ h. refl
        | suc k ↦ λ h. absurd (omega (arith, h))
      ]
        h;
}

small-IsTransposed :
    (h : SparseMatrix) × (expand_base_matrix small 3 ≡ some h) × IsTransposed (1 * 3) (2 * 3) h
small-IsTransposed =
    expand_base_matrix-IsTransposed small 3 small-IsShaped (omega arith) (omega arith)

-- The first row of the code of rate 13/15 has its connections, and both rates have their blocks.
blocks :
    (Option.map (λ b. length b.entries) (get_base_matrix 11 false) ≡ some 24)
    × (Option.map (λ b. b.expansion_factor) (get_base_matrix 11 true) ≡ some 90)
    × (Option.map (λ b. b.num_block_rows) (get_base_matrix 12 true) ≡ some 0)
unfolding get_base_matrix
blocks = (refl, refl, refl)

-- A place that is taken.
endless : base_row (record { num_block_rows = 1; num_block_cols = 2; row_weight = 6 }) 3 0 0 ≡ none
unfolding base_row
endless = refl

generate-IsTransposed_example :
    (h : SparseMatrix) × (generate 11 true ≡ some h)
    × IsTransposed
        ((if true then 16200 else 64800) - get_ldpc_info_bits true 11)
        (if true then 16200 else 64800)
        h
generate-IsTransposed_example = generate-IsTransposed 11 true (omega arith)

refused : validate_matrix no_matrix 11 true ≡ false
unfolding validate_matrix
refused = refl
