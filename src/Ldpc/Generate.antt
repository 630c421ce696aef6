-- ===== src/Ldpc/Generate.antt =====
-- `LdpcMatrixGenerator::generate` for every code rate and length: the base matrices have their shape, and
-- expand.
use usrp_atsc.Common.{
  ℕ, zero, suc, ◌-◌, ◌*◌, ◌<◌, ◌≤◌, ◌≡◌, refl, sym, ◌∙◌, arith, ◌==◌, if◌then◌else◌, Bool, true,
  false, ◌&&◌, and-right, List, [], ◌∷◌, length, get_or, Option, none, some,
}
use mathlib.Core.Path.{subst, ap₂}
use usrp_atsc.Common.Maybe.{◌>>=◌, false-true}
use usrp_atsc.Ldpc.Base.{LdpcBaseMatrix, is_valid_base, get_base_matrix}
use usrp_atsc.Ldpc.Expand.{SparseMatrix, expand_base_matrix, get_ldpc_info_bits, generate}
use usrp_atsc.Ldpc.Transposed.{IsTransposed, expand_base_matrix-IsTransposed}

abbrev all_wide : ℕ → List (List (Option ℕ)) → Bool
all_wide width [] = true
all_wide width (row ∷ rows) = (length row == width) && all_wide width rows

abbrev has_shape : ℕ → ℕ → Option LdpcBaseMatrix → Bool
has_shape rows q none = false
has_shape rows q (some b) =
    (b.num_block_rows == rows)
    && ((b.num_block_cols == 180)
        && ((b.expansion_factor == q) && ((length b.entries == rows) && all_wide 180 b.entries)))

long_shape :
    (rate : ℕ) → rate < 12 → has_shape ((13 - rate) * 12) 360 (get_base_matrix rate false) ≡ true
unfolding get_base_matrix
long_shape zero h = refl
long_shape (suc zero) h = refl
long_shape (suc (suc zero)) h = refl
long_shape (suc (suc (suc zero))) h = refl
long_shape (suc (suc (suc (suc zero)))) h = refl
long_shape (suc (suc (suc (suc (suc zero))))) h = refl
long_shape (suc (suc (suc (suc (suc (suc zero)))))) h = refl
long_shape (suc (suc (suc (suc (suc (suc (suc zero))))))) h = refl
long_shape (suc (suc (suc (suc (suc (suc (suc (suc zero)))))))) h = refl
long_shape (suc (suc (suc (suc (suc (suc (suc (suc (suc zero))))))))) h = refl
long_shape (suc (suc (suc (suc (suc (suc (suc (suc (suc (suc zero)))))))))) h = refl
long_shape (suc (suc (suc (suc (suc (suc (suc (suc (suc (suc (suc zero))))))))))) h = refl
long_shape (suc (suc (suc (suc (suc (suc (suc (suc (suc (suc (suc (suc rate)))))))))))) h =
    absurd (omega (arith, h))

short_shape :
    (rate : ℕ) → rate < 12 → has_shape ((13 - rate) * 12) 90 (get_base_matrix rate true) ≡ true
unfolding get_base_matrix
short_shape zero h = refl
short_shape (suc zero) h = refl
short_shape (suc (suc zero)) h = refl
short_shape (suc (suc (suc zero))) h = refl
short_shape (suc (suc (suc (suc zero)))) h = refl
short_shape (suc (suc (suc (suc (suc zero))))) h = refl
short_shape (suc (suc (suc (suc (suc (suc zero)))))) h = refl
short_shape (suc (suc (suc (suc (suc (suc (suc zero))))))) h = refl
short_shape (suc (suc (suc (suc (suc (suc (suc (suc zero)))))))) h = refl
short_shape (suc (suc (suc (suc (suc (suc (suc (suc (suc zero))))))))) h = refl
short_shape (suc (suc (suc (suc (suc (suc (suc (suc (suc (suc zero)))))))))) h = refl
short_shape (suc (suc (suc (suc (suc (suc (suc (suc (suc (suc (suc zero))))))))))) h = refl
short_shape (suc (suc (suc (suc (suc (suc (suc (suc (suc (suc (suc (suc rate)))))))))))) h =
    absurd (omega (arith, h))

long_size : (rate : ℕ) → rate < 12 → (13 - rate) * 12 * 360 ≡ 64800 - get_ldpc_info_bits false rate
unfolding get_ldpc_info_bits
long_size zero h = refl
long_size (suc zero) h = refl
long_size (suc (suc zero)) h = refl
long_size (suc (suc (suc zero))) h = refl
long_size (suc (suc (suc (suc zero)))) h = refl
long_size (suc (suc (suc (suc (suc zero))))) h = refl
long_size (suc (suc (suc (suc (suc (suc zero)))))) h = refl
long_size (suc (suc (suc (suc (suc (suc (suc zero))))))) h = refl
long_size (suc (suc (suc (suc (suc (suc (suc (suc zero)))))))) h = refl
long_size (suc (suc (suc (suc (suc (suc (suc (suc (suc zero))))))))) h = refl
long_size (suc (suc (suc (suc (suc (suc (suc (suc (suc (suc zero)))))))))) h = refl
long_size (suc (suc (suc (suc (suc (suc (suc (suc (suc (suc (suc zero))))))))))) h = refl
long_size (suc (suc (suc (suc (suc (suc (suc (suc (suc (suc (suc (suc rate)))))))))))) h =
    absurd (omega (arith, h))

short_size : (rate : ℕ) → rate < 12 → (13 - rate) * 12 * 90 ≡ 16200 - get_ldpc_info_bits true rate
unfolding get_ldpc_info_bits
short_size zero h = refl
short_size (suc zero) h = refl
short_size (suc (suc zero)) h = refl
short_size (suc (suc (suc zero))) h = refl
short_size (suc (suc (suc (suc zero)))) h = refl
short_size (suc (suc (suc (suc (suc zero))))) h = refl
short_size (suc (suc (suc (suc (suc (suc zero)))))) h = refl
short_size (suc (suc (suc (suc (suc (suc (suc zero))))))) h = refl
short_size (suc (suc (suc (suc (suc (suc (suc (suc zero)))))))) h = refl
short_size (suc (suc (suc (suc (suc (suc (suc (suc (suc zero))))))))) h = refl
short_size (suc (suc (suc (suc (suc (suc (suc (suc (suc (suc zero)))))))))) h = refl
short_size (suc (suc (suc (suc (suc (suc (suc (suc (suc (suc (suc zero))))))))))) h = refl
short_size (suc (suc (suc (suc (suc (suc (suc (suc (suc (suc (suc (suc rate)))))))))))) h =
    absurd (omega (arith, h))

all_wide-length :
    (width : ℕ) (rows : List (List (Option ℕ)))
    → all_wide width rows ≡ true
    → (i : ℕ) → i < length rows
    → length (get_or rows i []) ≡ width
all_wide-length width [] e i h = absurd (omega arith)
all_wide-length width (row ∷ rows) e zero h = ground (arith, e)
all_wide-length width (row ∷ rows) e (suc i) h =
    all_wide-length width rows (and-right (length row == width) _ e) i (omega arith)

-- What the test says of a base matrix that is returned.
expanded :
    (rows q info_bits : ℕ) (o : Option LdpcBaseMatrix)
    → 0 < rows
    → rows * q ≤ 65536
    → 0 < q
    → 180 * q ≤ 65536
    → has_shape rows q o ≡ true
    → (h : SparseMatrix) × ((o >>= λ base. expand_base_matrix base info_bits) ≡ some h)
      × IsTransposed (rows * q) (180 * q) h
unfolding is_valid_base
expanded rows q info_bits none p f p' f' e = absurd (false-true e)
expanded rows q info_bits (some b) p f p' f' e =
    let r : b.num_block_rows ≡ rows = ground (arith, e) in
    let c : b.num_block_cols ≡ 180 = ground (arith, e) in
    let x : b.expansion_factor ≡ q = ground (arith, e) in
    let t : length b.entries ≡ rows = ground (arith, e) in
    let w : all_wide 180 b.entries ≡ true = ground (arith, e) in
    let (h, e', k) =
      expand_base_matrix-IsTransposed b info_bits
        (record {
          valid = ground (arith, r, c, x, t, p, p');
          tall = t ∙ sym r;
          wide =
              λ br inside. all_wide-length 180 b.entries w br (omega (arith, inside, r, t)) ∙ sym c;
        })
        (subst (λ n. n ≤ 65536) (sym (ap₂ ◌*◌ r x)) f)
        (subst (λ n. n ≤ 65536) (sym (ap₂ ◌*◌ c x)) f') in
    (
      h,
      e',
      subst (λ m. IsTransposed m (180 * q) h) (ap₂ ◌*◌ r x)
          (subst (λ n. IsTransposed (b.num_block_rows * b.expansion_factor) n h) (ap₂ ◌*◌ c x) k),
    )

-- For each of the 12 code rates and both lengths, `generate` returns a matrix, without a loop that does not end
-- and without an access out of bounds. It has as many rows as the code has parity bits and as many
-- columns as a codeword has bits, and a row lists a column as often as the column lists the row.
pub generate-IsTransposed :
    (rate : ℕ) (short_codeword : Bool)
    → rate < 12
    → (h : SparseMatrix) × (generate rate short_codeword ≡ some h)
      × IsTransposed
          ((if short_codeword then 16200 else 64800) - get_ldpc_info_bits short_codeword rate)
          (if short_codeword then 16200 else 64800)
          h
unfolding generate
generate-IsTransposed rate false few =
    let (h, e, k) =
      expanded ((13 - rate) * 12) 360 (get_ldpc_info_bits false rate) (get_base_matrix rate false)
        (omega (arith, few)) (omega (arith, few)) (omega arith) (omega arith)
        (long_shape rate few) in
    (h, e, subst (λ m. IsTransposed m 64800 h) (long_size rate few) k)
generate-IsTransposed rate true few =
    let (h, e, k) =
      expanded ((13 - rate) * 12) 90 (get_ldpc_info_bits true rate) (get_base_matrix rate true)
        (omega (arith, few)) (omega (arith, few)) (omega arith) (omega arith)
        (short_shape rate few) in
    (h, e, subst (λ m. IsTransposed m 16200 h) (short_size rate few) k)
