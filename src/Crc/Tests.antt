-- ===== src/Crc/Tests.antt =====
-- The CRC on the nine digits, for which the MPEG-2 variant is published as 0x0376E6E7, and the
-- theorems on short messages.
use usrp_atsc.Common.{ℕ, ◌≡◌, refl, arith, true, List, [], ◌∷◌, ◌++◌, bit_xor, length, ◌*◌}
use usrp_atsc.Crc.{compute_crc32, compute_crc32_bits, verify_crc}
use usrp_atsc.Crc.Division.{
  divide_bytes, be32_bytes, crc32-division, crc32_bits-crc32, verify_crc-append,
}

abbrev digits : List ℕ
digits = 0x31 ∷ 0x32 ∷ 0x33 ∷ 0x34 ∷ 0x35 ∷ 0x36 ∷ 0x37 ∷ 0x38 ∷ 0x39 ∷ []

crc_of_digits : compute_crc32 digits ≡ 0x0376_E6E7
unfolding compute_crc32
crc_of_digits = refl

crc32-division_example :
    compute_crc32 (0x31 ∷ 0x32 ∷ []) ≡ divide_bytes 0xFFFF_FFFF (0x31 ∷ 0x32 ∷ [])
crc32-division_example = crc32-division (0x31 ∷ 0x32 ∷ []) (omega arith)

crc32_bits-crc32_example :
    compute_crc32_bits digits (8 * length digits) ≡ bit_xor (compute_crc32 digits) 0xFFFF_FFFF
crc32_bits-crc32_example = crc32_bits-crc32 digits

crc_appended : verify_crc ((7 ∷ 9 ∷ []) ++ be32_bytes (compute_crc32 (7 ∷ 9 ∷ []))) ≡ true
crc_appended = verify_crc-append (7 ∷ 9 ∷ []) (omega arith)
