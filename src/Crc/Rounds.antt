-- ===== src/Crc/Rounds.antt =====
-- The rounds of the shift register are linear for `bit_xor`.
use usrp_atsc.Common.{ℕ, zero, suc, ◌*◌, ◌/◌, ◌%◌, ◌^◌, ◌≤◌, ◌<◌, ◌≡◌, ap, arith, bit_xor, ◌∙◌, sym}
use native.Mathlib.Nat.{one-le-pow}
use usrp_atsc.Common.Bits.{
  shift-suc, xor_high, xor-disjoint, xor_assoc, xor_comm, xor-lt, xor-mod, xor-double, xor_low,
}
use usrp_atsc.Crc.{crc_round, crc_rounds, crc32_poly, u32}

pub crc_round-lt : (a : ℕ) → crc_round a < u32
unfolding crc_round
crc_round-lt a = ground (arith, xor-lt 32 (a * 2 % u32) crc32_poly (omega arith) (omega arith))

pub crc_rounds-lt : (n a : ℕ) → a < u32 → crc_rounds n a < u32
unfolding crc_rounds
crc_rounds-lt zero a h = h
crc_rounds-lt (suc n) a h = crc_rounds-lt n (crc_round a) (crc_round-lt a)

top_bit : (a b : ℕ) → b < 2 ^ 31 → bit_xor a b / 2 ^ 31 ≡ a / 2 ^ 31
top_bit a b h = omega (arith, xor_low 31 a b h, xor-lt 31 (a % 2 ^ 31) b (omega arith) h)

shifted : (a b : ℕ) → b < 2 ^ 31 → bit_xor a b * 2 % u32 ≡ bit_xor (a * 2 % u32) (b * 2)
shifted a b h =
    ap (λ t. t % u32) (sym (xor-double a b))
    ∙ xor-mod 32 (a * 2) (b * 2)
    ∙ ap (bit_xor (a * 2 % u32)) (omega arith)

xor_swap : (a b p : ℕ) → bit_xor (bit_xor a b) p ≡ bit_xor (bit_xor a p) b
xor_swap a b p = xor_assoc a b p ∙ ap (bit_xor a) (xor_comm b p) ∙ sym (xor_assoc a p b)

-- A value whose top bit is clear passes through a round as a plain shift.
crc_round-xor : (a b : ℕ) → b < 2 ^ 31 → crc_round (bit_xor a b) ≡ bit_xor (crc_round a) (b * 2)
unfolding crc_round
crc_round-xor a b h =
    rw (top_bit a b h, shifted a b h) (ground (arith, xor_swap (a * 2 % u32) (b * 2) crc32_poly))

pub crc_rounds-xor :
    (n a b : ℕ)
    → b * 2 ^ n < u32
    → crc_rounds n (bit_xor a b) ≡ bit_xor (crc_rounds n a) (b * 2 ^ n)
unfolding crc_rounds
crc_rounds-xor zero a b h = ap (bit_xor a) (omega arith)
crc_rounds-xor (suc n) a b h =
    ap (crc_rounds n) (crc_round-xor a b small)
    ∙ crc_rounds-xor n (crc_round a) (b * 2) (omega (arith, shift))
    ∙ ap (bit_xor (crc_rounds n (crc_round a))) (omega (arith, shift))
  where
    shift : b * 2 ^ suc n ≡ 2 * (b * 2 ^ n)
    shift = shift-suc b n

    positive : 1 ≤ 2 ^ n
    positive = one-le-pow n 2 (omega arith)

    grows : b ≤ b * 2 ^ n
    grows = grind (arith, positive)

    small : b < 2 ^ 31
    small = omega (arith, shift, grows)

-- A register and the next byte, eight rounds at a time: the top byte selects the table entry.
pub crc_rounds-byte :
    (crc byte : ℕ)
    → crc < u32
    → byte < 256
    → crc_rounds 8 (bit_xor crc (byte * 2 ^ 24))
      ≡ bit_xor (crc * 2 ^ 8 % u32) (crc_rounds 8 (bit_xor (crc / 2 ^ 24) byte * 2 ^ 24))
crc_rounds-byte crc byte h h' =
    ap (crc_rounds 8) split
    ∙ crc_rounds-xor 8 (bit_xor (crc / 2 ^ 24) byte * 2 ^ 24) (crc % 2 ^ 24) (omega arith)
    ∙ xor_comm _ _
    ∙ ap (λ t. bit_xor t (crc_rounds 8 (bit_xor (crc / 2 ^ 24) byte * 2 ^ 24))) (omega arith)
  where
    top : ℕ
    top = bit_xor (crc / 2 ^ 24) byte

    low : ℕ
    low = crc % 2 ^ 24

    split : bit_xor crc (byte * 2 ^ 24) ≡ bit_xor (top * 2 ^ 24) low
    split = xor_high 24 crc byte ∙ sym (xor-disjoint 24 top low (omega arith))
