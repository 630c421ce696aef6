-- ===== src/Ldpc/Transposed.antt =====
-- The rows and the columns of an expanded matrix say the same.
use usrp_atsc.Common.{
  ℕ, zero, suc, ◌+◌, ◌*◌, ◌%◌, ◌^◌, ◌≤◌, ◌<◌, ◌≡◌, refl, sym, ap, ◌∙◌, arith, ◌==◌, if◌then◌else◌,
  if-true, Bool, true, false, List, [], map, length, length-map, length-set, length-replicate,
  get_elem?, get_or, replicate, Option, none, some,
}
use mathlib.Core.Path.{ap₂}
use native.Mathlib.Nat.{mul-le-mul_right}
use usrp_atsc.Common.Maybe.{bind-next}
use usrp_atsc.Ldpc.Base.{LdpcBaseMatrix, is_valid_base}
use usrp_atsc.Ldpc.Expand.{
  SparseMatrix, push_index, block_loop, expand_entry, cols_loop, rows_loop, sort, empty_matrix,
  expand_base_matrix,
}
use usrp_atsc.Ldpc.Occurrences.{
  occurrences, occurrences-sort, get_or-map-sort, get_elem?-get_or, pushed, push_index-pushed,
  occurrences-pushed,
}

swap_tests :
    (a b : Bool)
    → ◌≡◌ {A = ℕ} (if a then (if b then 1 else 0) else 0) (if b then (if a then 1 else 0) else 0)
swap_tests true true = refl
swap_tests true false = refl
swap_tests false true = refl
swap_tests false false = refl

-- A matrix of a given size whose rows and columns say the same.
pub record IsTransposed (num_rows num_cols : ℕ) (h : SparseMatrix) : Type 0 where
  pub rows : length h.row_indices ≡ num_rows
  pub cols : length h.col_indices ≡ num_cols
  pub same :
      (r c : ℕ)
      → r < 65536
      → c < 65536
      → occurrences c (get_or h.row_indices r []) ≡ occurrences r (get_or h.col_indices c [])

-- A call that returns such a matrix.
abbrev Returns : ℕ → ℕ → Option SparseMatrix → Type 0
Returns num_rows num_cols o = (h : SparseMatrix) × (o ≡ some h) × IsTransposed num_rows num_cols h

in_block : (b blocks i q : ℕ) → b < blocks → i < q → b * q + i < blocks * q
in_block b blocks i q h h' = grind (arith, mul-le-mul_right)

module _ (blocks_down blocks_across q : ℕ) (few_rows : blocks_down * q ≤ 65536)
    (few_cols : blocks_across * q ≤ 65536) where
  abbrev Ok : SparseMatrix → Type 0
  Ok h = IsTransposed (blocks_down * q) (blocks_across * q) h

  abbrev with_one : SparseMatrix → ℕ → ℕ → SparseMatrix
  with_one h row col = record h {
    row_indices = pushed h.row_indices row (col % 2 ^ 16);
    col_indices = pushed h.col_indices col (row % 2 ^ 16);
  }

  with_one-Ok :
      (h : SparseMatrix) (row col : ℕ)
      → row < blocks_down * q
      → col < blocks_across * q
      → Ok h
      → Ok (with_one h row col)
  with_one-Ok h row col inside inside' k = record {
    rows = length-set h.row_indices row _ ∙ k.rows;
    cols = length-set h.col_indices col _ ∙ k.cols;
    same = λ r c hr hc.
        let a : row % 2 ^ 16 ≡ row = omega (arith, inside, few_rows) in
        let b : col % 2 ^ 16 ≡ col = omega (arith, inside', few_cols) in
        occurrences-pushed h.row_indices row (col % 2 ^ 16) r c (omega (arith, inside, k.rows))
        ∙ ap₂ ◌+◌
            (ap (λ t. if row == r then (if t == c then 1 else 0) else 0) b
              ∙ swap_tests (row == r) (col == c)
              ∙ ap (λ t. if col == c then (if t == r then 1 else 0) else 0) (sym a))
            (k.same r c hr hc)
        ∙ sym (
            occurrences-pushed h.col_indices col (row % 2 ^ 16) c r
              (omega (arith, inside', k.cols)));
  }

  block_loop-Returns :
      (br bc shift n i : ℕ) (h : SparseMatrix)
      → br < blocks_down
      → bc < blocks_across
      → i + n ≤ q
      → Ok h
      → Returns (blocks_down * q) (blocks_across * q) (block_loop q br bc shift n i h)
  unfolding block_loop
  block_loop-Returns br bc shift zero i h down across fits k = (h, refl, k)
  block_loop-Returns br bc shift (suc n) i h down across fits k =
      let row = br * q + i in
      let col = bc * q + (i + shift) % q in
      let inside = in_block br blocks_down i q down (omega arith) in
      let inside' = in_block bc blocks_across ((i + shift) % q) q across (omega (arith, fits)) in
      let (end, e, k') =
        block_loop-Returns br bc shift n (i + 1) (with_one h row col) down across (omega arith)
          (with_one-Ok h row col inside inside' k) in
      (
        end,
        bind-next (push_index h.row_indices row (col % 2 ^ 16)) _ _ _
            (push_index-pushed h.row_indices row (col % 2 ^ 16) (omega (arith, inside, k.rows)))
            (bind-next (push_index h.col_indices col (row % 2 ^ 16)) _ _ _
              (push_index-pushed h.col_indices col (row % 2 ^ 16) (omega (arith, inside', k.cols)))
              e),
        k',
      )

  expand_entry-Returns :
      (br bc : ℕ) (entry : Option ℕ) (h : SparseMatrix)
      → br < blocks_down
      → bc < blocks_across
      → Ok h
      → Returns (blocks_down * q) (blocks_across * q) (expand_entry q br bc entry h)
  unfolding expand_entry
  expand_entry-Returns br bc none h down across k = (h, refl, k)
  expand_entry-Returns br bc (some shift) h down across k =
      block_loop-Returns br bc shift q 0 h down across (omega arith) k

  module _ (entries : List (List (Option ℕ))) (tall : length entries ≡ blocks_down)
      (wide : (br : ℕ) → br < blocks_down → length (get_or entries br []) ≡ blocks_across) where
    cols_loop-Returns :
        (br n bc : ℕ) (h : SparseMatrix)
        → br < blocks_down
        → bc + n ≤ blocks_across
        → Ok h
        → Returns (blocks_down * q) (blocks_across * q) (cols_loop entries q br n bc h)
    unfolding cols_loop
    cols_loop-Returns br zero bc h down fits k = (h, refl, k)
    cols_loop-Returns br (suc n) bc h down fits k =
        let row = get_or entries br [] in
        let entry = get_or (get_or entries br []) bc none in
        let (next, e, k') = expand_entry-Returns br bc entry h down (omega arith) k in
        let (end, e', k'') = cols_loop-Returns br n (bc + 1) next down (omega arith) k' in
        (
          end,
          bind-next (get_elem? entries br) _ row _
              (get_elem?-get_or entries br [] (omega (arith, tall, down)))
              (bind-next (get_elem? row bc) _ entry _
                (get_elem?-get_or row bc none (omega (arith, wide br down, fits)))
                (bind-next (expand_entry q br bc entry h) _ next _ e e')),
          k'',
        )

    rows_loop-Returns :
        (n br : ℕ) (h : SparseMatrix)
        → br + n ≤ blocks_down
        → Ok h
        → Returns (blocks_down * q) (blocks_across * q) (rows_loop entries q blocks_across n br h)
    unfolding rows_loop
    rows_loop-Returns zero br h fits k = (h, refl, k)
    rows_loop-Returns (suc n) br h fits k =
        let (next, e, k') = cols_loop-Returns br blocks_across 0 h (omega arith) (omega arith) k in
        let (end, e', k'') = rows_loop-Returns n (br + 1) next (omega arith) k' in
        (end, bind-next (cols_loop entries q br blocks_across 0 h) _ next _ e e', k'')

-- A base matrix that is valid and has rows of its width.
pub record IsShaped (base : LdpcBaseMatrix) : Type 0 where
  pub valid : is_valid_base base ≡ true
  pub tall : length base.entries ≡ base.num_block_rows
  pub wide :
      (br : ℕ) → br < base.num_block_rows → length (get_or base.entries br []) ≡ base.num_block_cols

get_or-replicate_nil : (n i : ℕ) → get_or (replicate n []) i [] ≡ (let e : List ℕ = [] in e)
get_or-replicate_nil zero i = refl
get_or-replicate_nil (suc n) zero = refl
get_or-replicate_nil (suc n) (suc i) = get_or-replicate_nil n i

-- A base matrix of the right shape, whose expansion has at most 65536 rows and columns, expands without an
-- access out of bounds to a matrix of that size, in which a row lists a column as often as the column
-- lists the row.
pub expand_base_matrix-IsTransposed :
    (base : LdpcBaseMatrix) (info_bits : ℕ)
    → IsShaped base
    → base.num_block_rows * base.expansion_factor ≤ 65536
    → base.num_block_cols * base.expansion_factor ≤ 65536
    → (h : SparseMatrix) × (expand_base_matrix base info_bits ≡ some h)
      × IsTransposed
          (base.num_block_rows * base.expansion_factor)
          (base.num_block_cols * base.expansion_factor)
          h
unfolding expand_base_matrix empty_matrix
expand_base_matrix-IsTransposed base info_bits shaped few_rows few_cols =
    let start : IsTransposed (base.num_block_rows * base.expansion_factor)
        (base.num_block_cols * base.expansion_factor) (empty_matrix base info_bits) =
      record {
        rows = length-replicate _ _;
        cols = length-replicate _ _;
        same = λ r c hr hc.
            ap (occurrences c) (get_or-replicate_nil _ r)
            ∙ sym (ap (occurrences r) (get_or-replicate_nil _ c));
      } in
    let (h, e, k) =
      rows_loop-Returns base.num_block_rows base.num_block_cols base.expansion_factor few_rows
        few_cols base.entries shaped.tall shaped.wide base.num_block_rows 0
        (empty_matrix base info_bits) (omega arith) start in
    (
      record h { row_indices = map sort h.row_indices; col_indices = map sort h.col_indices },
      if-true _ _ shaped.valid
          ∙ bind-next
              (rows_loop base.entries base.expansion_factor base.num_block_cols base.num_block_rows
                0 (empty_matrix base info_bits))
              _ h _ e refl,
      record {
        rows = length-map h.row_indices sort ∙ k.rows;
        cols = length-map h.col_indices sort ∙ k.cols;
        same = λ r c hr hc.
            sorted h.row_indices r c ∙ k.same r c hr hc ∙ sym (sorted h.col_indices c r);
      },
    )
  where
    sorted :
        (lists : List (List ℕ)) (i v : ℕ)
        → occurrences v (get_or (map sort lists) i []) ≡ occurrences v (get_or lists i [])
    sorted lists i v =
        ap (occurrences v) (get_or-map-sort lists i) ∙ occurrences-sort v (get_or lists i [])
