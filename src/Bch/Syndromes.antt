-- ===== src/Bch/Syndromes.antt =====
-- `BchDecoder::compute_syndromes`, and the test that `decode` makes of them.
pub mod Zeros
use usrp_atsc.Common.{
  ℕ, zero, suc, ◌+◌, ◌*◌, ◌%◌, ◌^◌, ◌==◌, bit_xor, if◌then◌else◌, Bool, true, false, List,
  get_elem?, Option, none, some,
}
use usrp_atsc.Common.Maybe.{◌>>=◌}
use usrp_atsc.Bch.Bits.{write, get_bit}
use usrp_atsc.Bch.Field.{GfTables, gf_order}

-- The inner loop for one `j`: the rounds from `i` on.
unfoldable pub syndrome_loop : GfTables → List ℕ → ℕ → ℕ → ℕ → ℕ → Option ℕ
unfolding get_bit
syndrome_loop g bits j zero i syndrome = some syndrome
syndrome_loop g bits j (suc n) i syndrome = do
  one ← get_bit bits i
  next ←
      if one
      then (do
        power ← get_elem? g.gf_exp (j * i % 2 ^ 64 % gf_order)
        some (bit_xor syndrome power))
      else some syndrome
  syndrome_loop g bits j n (i + 1) next

-- The outer loop: the rounds from `j` on.
unfoldable pub syndromes_loop : GfTables → List ℕ → ℕ → ℕ → ℕ → List ℕ → Option (List ℕ)
unfolding syndrome_loop write
syndromes_loop g bits num_bits zero j syndromes = some syndromes
syndromes_loop g bits num_bits (suc n) j syndromes = do
  syndrome ← syndrome_loop g bits j num_bits 0 0
  stored ← write syndromes j syndrome
  syndromes_loop g bits num_bits n (j + 1) stored

unfoldable pub compute_syndromes : GfTables → ℕ → List ℕ → ℕ → List ℕ → Option (List ℕ)
unfolding syndromes_loop
compute_syndromes g t bits num_bits syndromes = syndromes_loop g bits num_bits (2 * t) 1 syndromes

-- Whether the entries from `j` on are 0, for so many of them.
unfoldable pub all_zero_loop : ℕ → ℕ → List ℕ → Option Bool
all_zero_loop zero j syndromes = some true
all_zero_loop (suc n) j syndromes = do
  s ← get_elem? syndromes j
  if s == 0 then all_zero_loop n (j + 1) syndromes else some false

unfoldable pub all_zero : ℕ → List ℕ → Option Bool
unfolding all_zero_loop
all_zero t syndromes = all_zero_loop (2 * t) 1 syndromes
