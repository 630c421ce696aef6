-- ===== src/Bch/Chien.antt =====
-- `BchDecoder::chien_search`
pub mod Positions
use usrp_atsc.Common.{
  ℕ, zero, suc, ◌+◌, ◌-◌, ◌==◌, ltb, bit_xor, if◌then◌else◌, false, List, [], ◌∷◌, ◌++◌, length,
  get_elem?, set, take, Option, none, some,
}
use usrp_atsc.Common.Maybe.{◌>>=◌}
use usrp_atsc.Bch.Bits.{write}
use usrp_atsc.Bch.Field.{GfTables, log_minus}

-- The highest place with an entry that is not 0: the rounds from `i` on.
unfoldable pub degree_loop : List ℕ → ℕ → ℕ → ℕ → Option ℕ
degree_loop locator zero i degree = some degree
degree_loop locator (suc n) i degree = do
  c ← get_elem? locator i
  degree_loop locator n (i + 1) (if c == 0 then degree else i)

-- The sum of the terms: the rounds from `j` on.
unfoldable pub sum_loop : List ℕ → ℕ → ℕ → ℕ → Option ℕ
sum_loop eval zero j sum = some sum
sum_loop eval (suc n) j sum = do e ← get_elem? eval j; sum_loop eval n (j + 1) (bit_xor sum e)

-- The terms for the next position: the rounds from `j` on.
unfoldable pub next_terms_loop : GfTables → ℕ → ℕ → List ℕ → Option (List ℕ)
unfolding log_minus write
next_terms_loop g zero j eval = some eval
next_terms_loop g (suc n) j eval = do
  e ← get_elem? eval j
  next ←
      if e == 0
      then some eval
      else (do i ← get_elem? g.gf_log e; v ← get_elem? g.gf_exp (log_minus i j); write eval j v)
  next_terms_loop g n (j + 1) next

-- The positions that are found from position `i` on, behind those found so far.
unfoldable pub search_loop : GfTables → ℕ → ℕ → ℕ → List ℕ → List ℕ → Option (List ℕ)
unfolding sum_loop next_terms_loop
search_loop g degree zero i eval found = some found
search_loop g degree (suc n) i eval found = do
  first ← get_elem? eval 0
  sum ← sum_loop eval degree 1 first
  let found' = if sum == 0 then found ++ i ∷ [] else found
  if (if sum == 0 then length found' == degree else false)
      then some found'
      else (do next ← next_terms_loop g degree 1 eval; search_loop g degree n (i + 1) next found')

unfoldable pub chien_search : GfTables → ℕ → List ℕ → ℕ → Option (List ℕ)
unfolding degree_loop search_loop
chien_search g t locator num_bits = do
  degree ← degree_loop locator (t + 1) 0 0
  if degree == 0
      then some []
      else if ltb (length locator) (degree + 1)
      then none
      else search_loop g degree num_bits 0 (take (degree + 1) locator) []
