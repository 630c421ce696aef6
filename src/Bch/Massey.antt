-- ===== src/Bch/Massey.antt =====
-- `BchDecoder::berlekamp_massey`. A read or a write out of bounds is `none`.
use usrp_atsc.Common.{
  ℕ, zero, suc, ◌+◌, ◌-◌, ◌*◌, ◌==◌, ltb, leb, bit_xor, if◌then◌else◌, List, get_elem?, set,
  replicate, Option, none, some,
}
use usrp_atsc.Common.Maybe.{◌>>=◌}
use usrp_atsc.Bch.Bits.{write, copy_first}
use usrp_atsc.Bch.Field.{GfTables, gf_mul, gf_div}

-- The variables of the function. `sigma_temp` is written before each use of it, within one round.
pub record Massey : Type 0 where
  pub sigma : List ℕ
  pub sigma_prev : List ℕ
  pub num_errors : ℕ
  pub m : ℕ
  pub delta_prev : ℕ

unfoldable pub start_massey : ℕ → Massey
start_massey t = record {
  sigma = set (replicate (t + 2) 0) 0 1;
  sigma_prev = set (replicate (t + 2) 0) 0 1;
  num_errors = 0;
  m = 1;
  delta_prev = 1;
}

-- The discrepancy: the rounds from `i` on. The second vector is read only where the first has no 0.
unfoldable pub discrepancy_loop : GfTables → List ℕ → List ℕ → ℕ → ℕ → ℕ → ℕ → Option ℕ
unfolding gf_mul
discrepancy_loop g syndromes sigma n zero i delta = some delta
discrepancy_loop g syndromes sigma n (suc k) i delta = do
  s ← get_elem? sigma i
  next ← if s == 0 then some delta else if ltb n i then none else (do
    y ← get_elem? syndromes (n - i)
    if y == 0 then some delta else (do product ← gf_mul g s y; some (bit_xor delta product)))
  discrepancy_loop g syndromes sigma n k (i + 1) next

-- The subtraction of the shifted polynomial: the rounds from `i` on.
unfoldable pub subtract_loop : GfTables → ℕ → ℕ → List ℕ → ℕ → ℕ → List ℕ → Option (List ℕ)
unfolding gf_mul write
subtract_loop g coeff m sigma_prev zero i sigma = some sigma
subtract_loop g coeff m sigma_prev (suc k) i sigma = do
  p ← get_elem? sigma_prev i
  next ← if p == 0 then some sigma else (do
    old ← get_elem? sigma (i + m)
    product ← gf_mul g coeff p
    write sigma (i + m) (bit_xor old product))
  subtract_loop g coeff m sigma_prev k (i + 1) next

-- The round `n` of the outer loop, where the discrepancy is not 0.
unfoldable pub change_sigma : GfTables → ℕ → ℕ → ℕ → Massey → Option Massey
unfolding gf_div subtract_loop
change_sigma g t n delta b = do
  coeff ← gf_div g delta b.delta_prev
  sigma ← subtract_loop g coeff b.m b.sigma_prev (t + 2 - b.m) 0 b.sigma
  some (
      if leb (2 * b.num_errors) (n - 1)
      then record {
        sigma = sigma;
        sigma_prev = b.sigma;
        num_errors = n - b.num_errors;
        m = 1;
        delta_prev = delta;
      }
      else record b { sigma = sigma; m = b.m + 1 })

unfoldable pub massey_round : GfTables → ℕ → List ℕ → ℕ → Massey → Option Massey
unfolding discrepancy_loop change_sigma
massey_round g t syndromes n b = do
  first ← get_elem? syndromes n
  delta ← discrepancy_loop g syndromes b.sigma n b.num_errors 1 first
  if delta == 0 then some (record b { m = b.m + 1 }) else change_sigma g t n delta b

unfoldable pub massey_loop : GfTables → ℕ → List ℕ → ℕ → ℕ → Massey → Option Massey
unfolding massey_round
massey_loop g t syndromes zero n b = some b
massey_loop g t syndromes (suc k) n b = do
  next ← massey_round g t syndromes n b
  massey_loop g t syndromes k (n + 1) next

-- The degree, and what is left in `error_locator_`, of which the entries behind the degree stay as they
-- were.
unfoldable pub berlekamp_massey : GfTables → ℕ → List ℕ → List ℕ → Option (ℕ × List ℕ)
unfolding massey_loop start_massey copy_first
berlekamp_massey g t syndromes error_locator = do
  b ← massey_loop g t syndromes (2 * t) 1 (start_massey t)
  locator ← copy_first (b.num_errors + 1) b.sigma error_locator
  some (b.num_errors, locator)
