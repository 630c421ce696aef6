-- ===== src/Ofdm/Permutation.antt =====
-- The permutation table of lib/ofdm/cell_deinterleaver.cc, which lib/ofdm/freq_deinterleaver.cc
-- computes in the same way, and the gather through it. `none` is an access outside of a vector.
pub mod Reverse
pub mod Power
pub mod Matched
pub mod Matching
pub mod Inverse
pub mod Fill
pub mod Forward
pub mod Gather
pub mod Routing
use usrp_atsc.Common.{
  ℕ, zero, suc, ◌+◌, ◌-◌, ◌*◌, ◌/◌, ◌%◌, ◌^◌, ◌==◌, ltb, leb, if◌then◌else◌, Bool, true, false, not,
  ◌&&◌, List, [], ◌∷◌, ◌++◌, length, get_or, get_elem?, set, take, drop, replicate, resize, Option,
  none, some,
}
use Prim.Native.Nat.{bit_and, bit_or}
use mathlib.Core.Option
use usrp_atsc.Common.Maybe.{◌>>=◌}

-- `n |= n >> k`
abbrev pub smear_step : ℕ → ℕ → ℕ
smear_step k n = bit_or n (n / 2 ^ k)

-- The six steps.
abbrev pub smear : ℕ → ℕ
smear n =
    smear_step 32 (smear_step 16 (smear_step 8 (smear_step 4 (smear_step 2 (smear_step 1 n)))))

-- `next_power_of_two`, with the wrap-around of 64 bits.
unfoldable pub next_power_of_two : ℕ → ℕ
next_power_of_two zero = 1
next_power_of_two (suc n) = (smear n + 1) % 2 ^ 64

-- `count_bits`, with the rounds that are left.
unfoldable pub count_bits_loop : ℕ → ℕ → ℕ
count_bits_loop zero n = 0
count_bits_loop (suc rounds) n =
    let rest = count_bits_loop rounds (n / 2) in if ltb 0 n then rest + 1 else 0

unfoldable pub count_bits : ℕ → ℕ
unfolding count_bits_loop
count_bits n = count_bits_loop 64 n

-- `bit_reverse`
unfoldable pub bit_reverse_loop : ℕ → ℕ → ℕ → ℕ
bit_reverse_loop zero result x = result
bit_reverse_loop (suc rounds) result x =
    bit_reverse_loop rounds (bit_or (result * 2 % 2 ^ 64) (bit_and x 1)) (x / 2)

unfoldable pub bit_reverse : ℕ → ℕ → ℕ
unfolding bit_reverse_loop
bit_reverse x num_bits = bit_reverse_loop num_bits 0 x

-- The bits of the padded size.
unfoldable pub bits_for : ℕ → ℕ
unfolding count_bits next_power_of_two
bits_for num_cells =
    let num_bits = count_bits (next_power_of_two num_cells - 1) in
    if num_bits == 0 then 1 else num_bits

-- The table for a power of 2, from place `i` on.
unfoldable pub reversed_table : ℕ → ℕ → ℕ → List ℕ
unfolding bit_reverse
reversed_table num_bits zero i = []
reversed_table num_bits (suc rounds) i =
    bit_reverse i num_bits ∷ reversed_table num_bits rounds (i + 1)

-- The pairs of a place and its reversal that are both in range, from place `i` on.
unfoldable pub valid_pairs : ℕ → ℕ → ℕ → ℕ → List (ℕ × ℕ)
unfolding bit_reverse
valid_pairs num_cells num_bits zero i = []
valid_pairs num_cells num_bits (suc rounds) i =
    let rest = valid_pairs num_cells num_bits rounds (i + 1) in
    let rev = bit_reverse i num_bits in
    if ltb i num_cells && ltb rev num_cells then (i, rev) ∷ rest else rest

pub record Match : Type 0 where
  pub fwd_perm : List ℕ
  pub src_used : List Bool
  pub dst_used : List Bool

-- The loop over the pairs. They are in range.
unfoldable pub match_pair : Match → ℕ → ℕ → Match
match_pair st src dst =
    if not (get_or st.src_used src true) && not (get_or st.dst_used dst true)
    then record {
      fwd_perm = set st.fwd_perm src dst;
      src_used = set st.src_used src true;
      dst_used = set st.dst_used dst true;
    }
    else st

unfoldable pub match_pairs : Match → List (ℕ × ℕ) → Match
unfolding match_pair
match_pairs st [] = st
match_pairs st (p ∷ ps) = match_pairs (match_pair st p.0 p.1) ps

-- The destinations that are left, from place `i` on.
unfoldable pub unused_places : ℕ → List Bool → List ℕ
unused_places i [] = []
unused_places i (b ∷ bs) = let rest = unused_places (i + 1) bs in if not b then i ∷ rest else rest

-- They fill the sources that are left, from place `i` on.
unfoldable pub fill_unused : List ℕ → ℕ → List Bool → List ℕ → Option (List ℕ)
fill_unused fwd_perm i [] unused_dst = some fwd_perm
fill_unused fwd_perm i (true ∷ bs) unused_dst = fill_unused fwd_perm (i + 1) bs unused_dst
fill_unused fwd_perm i (false ∷ bs) [] = none
fill_unused fwd_perm i (false ∷ bs) (o ∷ unused_dst) =
    fill_unused (set fwd_perm i o) (i + 1) bs unused_dst

abbrev pub no_match : ℕ → Match
no_match num_cells = record {
  fwd_perm = replicate num_cells 0;
  src_used = replicate num_cells false;
  dst_used = replicate num_cells false;
}

-- The forward permutation.
unfoldable pub matched_table : ℕ → ℕ → ℕ → Option (List ℕ)
unfolding valid_pairs match_pairs unused_places fill_unused
matched_table num_cells num_bits n_padded =
    let st = match_pairs (no_match num_cells) (valid_pairs num_cells num_bits n_padded 0) in
    fill_unused st.fwd_perm 0 st.src_used (unused_places 0 st.dst_used)

unfoldable pub forward_table : ℕ → Option (List ℕ)
unfolding next_power_of_two bits_for reversed_table matched_table
forward_table num_cells =
    let n_padded = next_power_of_two num_cells in
    if num_cells == n_padded
    then some (reversed_table (bits_for num_cells) num_cells 0)
    else matched_table num_cells (bits_for num_cells) n_padded

-- The inverse of a table, from place `i` on; the vector keeps what it holds elsewhere. `none` is a
-- write outside of the vector.
unfoldable pub invert_table : List ℕ → ℕ → List ℕ → Option (List ℕ)
invert_table inv i [] = some inv
invert_table inv i (j ∷ fwd_perm) =
    let rest = invert_table (set inv j i) (i + 1) fwd_perm in
    if ltb j (length inv) then rest else none

-- `inv_permutation_` after `compute_permutation`.
unfoldable pub inverse_table : List ℕ → ℕ → Option (List ℕ)
unfolding forward_table invert_table
inverse_table old num_cells = do
  fwd_perm ← forward_table num_cells
  invert_table (resize old num_cells 0) 0 fwd_perm

-- `gather_i8_scalar`
unfoldable pub gather_scalar : List ℕ → List ℕ → Option (List ℕ)
gather_scalar src [] = some []
gather_scalar src (i ∷ indices) = do
  v ← get_elem? src i
  vs ← gather_scalar src indices
  some (v ∷ vs)

-- `gather_i8_avx2` and `gather_i8_ssse3`: blocks of `simd_width`, with the rounds that are left, then
-- the scalar cleanup.
unfoldable pub gather_blocks : ℕ → ℕ → List ℕ → List ℕ → Option (List ℕ)
unfolding gather_scalar
gather_blocks simd_width zero src indices = gather_scalar src indices
gather_blocks simd_width (suc rounds) src indices =
    let rest = gather_blocks simd_width rounds src (drop simd_width indices) in
    if leb simd_width (length indices)
    then (do temp ← gather_scalar src (take simd_width indices); vs ← rest; some (temp ++ vs))
    else gather_scalar src indices

-- What the processor supports.
pub data SimdTier : Type 0 where
  avx2 : SimdTier
  ssse3 : SimdTier
  scalar : SimdTier

-- `gather_i8_dispatch`
unfoldable pub gather : SimdTier → List ℕ → List ℕ → Option (List ℕ)
unfolding gather_blocks gather_scalar
gather SimdTier.avx2 src indices = gather_blocks 32 (length indices) src indices
gather SimdTier.ssse3 src indices = gather_blocks 16 (length indices) src indices
gather SimdTier.scalar src indices = gather_scalar src indices
