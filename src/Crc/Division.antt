-- ===== src/Crc/Division.antt =====
-- The table-driven loop against the shift register that takes a message bit by bit.
use usrp_atsc.Common.{
  take-length, get_or-append_right, take-length-append, length-append, false, ==_iff, ℕ, ◌+◌, ◌-◌,
  ◌*◌, ◌/◌, ◌%◌, ◌^◌, ◌<◌, ◌≡◌, refl, ap, arith, bit_xor, ◌∙◌, sym, List, [], ◌∷◌, ◌++◌, length,
  get_or, ltb, true, ◌==◌,
}
use native.Mathlib.Nat.{mod-eq_of_lt}
use usrp_atsc.Common.Bits.{xor-lt}
use usrp_atsc.Crc.{
  crc_rounds, crc32_table, crc_step, crc_bytes, compute_crc32, compute_crc32_bits, verify_crc, u32,
  be32,
}
use usrp_atsc.Crc.Rounds.{crc_rounds-byte, crc_rounds-lt}
use usrp_atsc.Crc.Tables.{get_or-crc32_table, tables_agree}

abbrev pub IsBytes : List ℕ → Type 0
IsBytes [] = Unit {0}
IsBytes (b ∷ bs) = (b < 256) × IsBytes bs

-- The division of a message by the polynomial, one bit of the register at a time: each byte is
-- added at the top of the register, which then makes eight rounds. No table is used.
unfoldable pub divide_bytes : ℕ → List ℕ → ℕ
divide_bytes crc [] = crc
divide_bytes crc (byte ∷ bytes) = divide_bytes (crc_rounds 8 (bit_xor crc (byte * 2 ^ 24))) bytes

shifted-lt : (b : ℕ) → b < 256 → b * 2 ^ 24 < 2 ^ 32
shifted-lt b h = omega arith

crc_step-eq :
    (crc byte : ℕ)
    → crc < u32
    → byte < 256
    → crc_step crc32_table crc byte ≡ crc_rounds 8 (bit_xor crc (byte * 2 ^ 24))
unfolding crc_step
crc_step-eq crc byte h h' =
    ap (bit_xor (crc * 2 ^ 8 % u32)) (
      ap (λ t. get_or crc32_table t 0) (mod-eq_of_lt small)
      ∙ get_or-crc32_table (bit_xor (crc / 2 ^ 24) byte) small)
    ∙ sym (crc_rounds-byte crc byte h h')
  where
    small : bit_xor (crc / 2 ^ 24) byte < 256
    small = xor-lt 8 (crc / 2 ^ 24) byte (omega arith) h'

pub crc_bytes-eq :
    (crc : ℕ) (bytes : List ℕ)
    → crc < u32
    → IsBytes bytes
    → crc_bytes crc32_table crc bytes ≡ divide_bytes crc bytes
unfolding crc_bytes divide_bytes
crc_bytes-eq crc [] h bs = refl
crc_bytes-eq crc (b ∷ bytes) h bs =
    ap (λ t. crc_bytes crc32_table t bytes) (crc_step-eq crc b h bs.0)
    ∙ crc_bytes-eq (crc_rounds 8 (bit_xor crc (b * 2 ^ 24))) bytes
        (crc_rounds-lt 8 (bit_xor crc (b * 2 ^ 24))
          (xor-lt 32 crc (b * 2 ^ 24) h (shifted-lt b bs.0)))
        bs.1

divide_bytes-lt :
    (crc : ℕ) (bytes : List ℕ) → crc < u32 → IsBytes bytes → divide_bytes crc bytes < u32
unfolding divide_bytes
divide_bytes-lt crc [] h bs = h
divide_bytes-lt crc (b ∷ bytes) h bs =
    divide_bytes-lt (crc_rounds 8 (bit_xor crc (b * 2 ^ 24))) bytes
      (crc_rounds-lt 8 (bit_xor crc (b * 2 ^ 24))
        (xor-lt 32 crc (b * 2 ^ 24) h (shifted-lt b bs.0)))
      bs.1

-- Over bytes, the CRC that `AlpDemux` computes with its stored table is the remainder that the
-- shift register leaves.
pub crc32-division :
    (bytes : List ℕ) → IsBytes bytes → compute_crc32 bytes ≡ divide_bytes 0xFFFF_FFFF bytes
unfolding compute_crc32
crc32-division bytes bs = crc_bytes-eq 0xFFFF_FFFF bytes (omega arith) bs

-- Over whole bytes, the CRC of `L1Decoder` is that of `AlpDemux` with every bit inverted.
pub crc32_bits-crc32 :
    (bytes : List ℕ)
    → compute_crc32_bits bytes (8 * length bytes) ≡ bit_xor (compute_crc32 bytes) 0xFFFF_FFFF
unfolding compute_crc32_bits compute_crc32
crc32_bits-crc32 bytes =
    let p : 8 * length bytes % 8 ≡ 0 = omega arith in
    let q : 8 * length bytes / 8 ≡ length bytes = omega arith in
    rw (p, q, take-length bytes, ← tables_agree)

-- The big-endian bytes of a word.
abbrev pub be32_bytes : ℕ → List ℕ
be32_bytes w = (w / 2 ^ 24) ∷ (w / 2 ^ 16 % 256) ∷ (w / 2 ^ 8 % 256) ∷ (w % 256) ∷ []

be32-bytes : (bytes : List ℕ) (w : ℕ) → w < u32 → be32 (bytes ++ be32_bytes w) (length bytes) ≡ w
be32-bytes bytes w h = ground (
  arith,
  get_or-append_right bytes (be32_bytes w) 1 0,
  get_or-append_right bytes (be32_bytes w) 2 0,
  get_or-append_right bytes (be32_bytes w) 3 0,
  first,
)
  where
    first : get_or (bytes ++ be32_bytes w) (length bytes) 0 ≡ w / 2 ^ 24
    first =
        ap (λ k. get_or (bytes ++ be32_bytes w) k 0) (omega arith)
        ∙ get_or-append_right bytes (be32_bytes w) 0 0

-- The test of `verify_crc`, for a word that stands behind the data.
verify_crc-word :
    (bytes : List ℕ) (w : ℕ)
    → w < u32
    → verify_crc (bytes ++ be32_bytes w) ≡ (compute_crc32 bytes == w)
unfolding verify_crc
verify_crc-word bytes w h =
    let n : length (bytes ++ be32_bytes w) ≡ length bytes + 4 =
      length-append bytes (be32_bytes w) in
    let m : length bytes + 4 - 4 ≡ length bytes = omega arith in
    let t : ltb (length bytes + 4) 4 ≡ false = ground arith in
    rw (n, t, m, take-length-append bytes (be32_bytes w), be32-bytes bytes w h)

-- Any bytes with their CRC after them pass the check of `AlpDemux`.
pub verify_crc-append :
    (bytes : List ℕ) → IsBytes bytes → verify_crc (bytes ++ be32_bytes (compute_crc32 bytes)) ≡ true
verify_crc-append bytes bs =
    verify_crc-word bytes (compute_crc32 bytes)
      (rw (crc32-division bytes bs) (divide_bytes-lt 0xFFFF_FFFF bytes (omega arith) bs))
    ∙ (==_iff _ _).1 refl
