-- ===== src/Crc/Tables.antt =====
-- The two tables hold the same entries, each of them eight rounds of the shift register.
use usrp_atsc.Common.{ℕ, zero, suc, ◌+◌, ◌*◌, ◌^◌, ◌<◌, ◌≡◌, refl, ap, ◌∙◌, arith, get_or}
use usrp_atsc.Crc.{crc32_table, init_crc32_table, fill_table, crc_rounds}

pub tables_agree : crc32_table ≡ init_crc32_table
unfolding crc32_table init_crc32_table
tables_agree = refl

get_or-fill_table :
    (n i k : ℕ) → k < n → get_or (fill_table n i) k 0 ≡ crc_rounds 8 ((i + k) * 2 ^ 24)
unfolding fill_table
get_or-fill_table zero i k h = absurd (omega arith)
get_or-fill_table (suc n) i zero h = ap (λ t. crc_rounds 8 (t * 2 ^ 24)) (omega arith)
get_or-fill_table (suc n) i (suc k) h =
    get_or-fill_table n (i + 1) k (omega arith) ∙ ap (λ t. crc_rounds 8 (t * 2 ^ 24)) (omega arith)

pub get_or-crc32_table : (k : ℕ) → k < 256 → get_or crc32_table k 0 ≡ crc_rounds 8 (k * 2 ^ 24)
unfolding init_crc32_table
get_or-crc32_table k h =
    rw tables_agree
      (get_or-fill_table 256 0 k h ∙ ap (λ t. crc_rounds 8 (t * 2 ^ 24)) (omega arith))
