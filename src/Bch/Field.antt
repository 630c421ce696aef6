-- ===== src/Bch/Field.antt =====
-- The tables of GF(2^16) and the arithmetic in them. The logarithm -1 of 0 is written as its pattern of
-- 32 bits; it is not read, since every use of a logarithm has a test for 0 before it.
use usrp_atsc.Common.{
  ℕ, zero, suc, ◌+◌, ◌-◌, ◌*◌, ◌/◌, ◌%◌, ◌^◌, ◌==◌, ltb, bit_xor, if◌then◌else◌, ◌||◌, List,
  get_elem?, set, replicate, Option, some,
}
use usrp_atsc.Common.Maybe.{◌>>=◌}

abbrev pub gf_primitive_poly : ℕ
gf_primitive_poly = 69643

abbrev pub gf_size : ℕ
gf_size = 65536

abbrev pub gf_order : ℕ
gf_order = 65535

pub record GfTables : Type 0 where
  pub gf_exp : List ℕ
  pub gf_log : List ℕ

-- A multiplication by α.
unfoldable pub times_alpha : ℕ → ℕ
times_alpha x =
    let shifted = x * 2 in
    if shifted / 2 ^ 16 % 2 == 1 then bit_xor shifted gf_primitive_poly else shifted

-- The rounds of the loop from `i` on.
unfoldable pub fill_tables : ℕ → ℕ → ℕ → GfTables → GfTables
unfolding times_alpha
fill_tables zero i x tables = tables
fill_tables (suc n) i x tables = fill_tables n (i + 1) (times_alpha x) (record {
  gf_exp = set (set tables.gf_exp i (x % 2 ^ 16)) (i + gf_order) (x % 2 ^ 16);
  gf_log = set tables.gf_log x i;
})

-- `init_gf_tables`
unfoldable pub init_gf_tables : GfTables
unfolding fill_tables
init_gf_tables = fill_tables gf_order 0 1 (record {
  gf_exp = replicate (2 * gf_order) 0;
  gf_log = set (replicate gf_size 0) 0 (2 ^ 32 - 1);
})

-- `gf_mul`, `gf_div` and `gf_inv`
unfoldable pub gf_mul : GfTables → ℕ → ℕ → Option ℕ
gf_mul g a b = if a == 0 || b == 0 then some 0 else do
  i ← get_elem? g.gf_log a
  j ← get_elem? g.gf_log b
  get_elem? g.gf_exp ((i + j) % gf_order)

unfoldable pub log_minus : ℕ → ℕ → ℕ
log_minus i j = if ltb i j then i + gf_order - j else i - j

unfoldable pub gf_div : GfTables → ℕ → ℕ → Option ℕ
unfolding log_minus
gf_div g a b =
    if b == 0
    then some 0
    else if a == 0
    then some 0
    else do i ← get_elem? g.gf_log a; j ← get_elem? g.gf_log b; get_elem? g.gf_exp (log_minus i j)

unfoldable pub gf_inv : GfTables → ℕ → Option ℕ
gf_inv g a =
    if a == 0 then some 0 else do i ← get_elem? g.gf_log a; get_elem? g.gf_exp (gf_order - i)
