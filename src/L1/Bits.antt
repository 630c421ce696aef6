-- ===== src/L1/Bits.antt =====
-- `L1Decoder::extract_bits`, `L1Decoder::fec_decode` and `L1Decoder::validate_crc`.
pub mod Value
use usrp_atsc.Common.{
  ℕ, zero, suc, ◌+◌, ◌-◌, ◌*◌, ◌/◌, ◌%◌, ◌^◌, ◌==◌, ltb, leb, if◌then◌else◌, Bool, true, false, not,
  List, [], ◌∷◌, length, get_elem?, get_or, set, replicate, Option, none, some,
}
use usrp_atsc.Common.Maybe.{◌>>=◌}
use usrp_atsc.Crc.{compute_crc32_bits}

-- The bit at `pos`, the most significant bit of a byte first.
abbrev pub bit_at : ℕ → ℕ → Bool
bit_at byte pos = byte / 2 ^ (7 - pos % 8) % 2 == 1

-- The loop of `extract_bits`, with `rounds` bits left from `pos` on; `none` is a read outside of the
-- buffer, or a set bit whose place is not inside of the `uint32_t` of the result: a shift that C++
-- leaves undefined. Each bit has a place of its own, so it is added there.
unfoldable pub extract_loop : List ℕ → ℕ → ℕ → ℕ → Option ℕ
extract_loop bytes pos zero result = some result
extract_loop bytes pos (suc rounds) result = do
  byte ← get_elem? bytes (pos / 8)
  next ←
      if bit_at byte pos
      then (if ltb rounds 32 then some (result + 2 ^ rounds) else none)
      else some result
  extract_loop bytes (pos + 1) rounds next

-- `extract_bits`
unfoldable pub extract_bits : List ℕ → ℕ → ℕ → Option ℕ
unfolding extract_loop
extract_bits bytes bit_offset num_bits = extract_loop bytes bit_offset num_bits 0

-- `byte |= 1 << k` or `byte &= ~(1 << k)`
abbrev pub put_bit : ℕ → ℕ → Bool → ℕ
put_bit byte k b = byte / 2 ^ (k + 1) * 2 ^ (k + 1) + (if b then 2 ^ k else 0) + byte % 2 ^ k

-- An `int8_t` is its bit pattern, below 256.
abbrev pub is_negative : ℕ → Bool
is_negative llr = leb 128 llr

-- The loop of `fec_decode` from the `i`-th value on.
unfoldable pub decide_loop : ℕ → List ℕ → List ℕ → List ℕ
decide_loop i [] out = out
decide_loop i (llr ∷ llrs) out =
    decide_loop (i + 1) llrs
      (set out (i / 8) (put_bit (get_or out (i / 8) 0) (7 - i % 8) (is_negative llr)))

-- `fec_decode`, which decides each bit by itself and uses neither the code rate nor the length.
unfoldable pub fec_decode : List ℕ → List ℕ
unfolding decide_loop
fec_decode llr_in = decide_loop 0 llr_in (replicate ((length llr_in + 7) / 8) 0)

-- `validate_crc`
unfoldable pub validate_crc : Bool → List ℕ → ℕ → Option Bool
validate_crc check_crc bytes num_bits =
    if not check_crc
    then some true
    else if ltb num_bits 32
    then some false
    else (extract_bits bytes (num_bits - 32) 32 >>= λ transmitted.
        some (compute_crc32_bits bytes (num_bits - 32) == transmitted))
