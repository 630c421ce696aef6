-- ===== src/Bch/Bits.antt =====
-- Vectors with accesses that are `none` out of bounds, and the bits of a packed word, the most significant
-- one of a byte first.
use usrp_atsc.Common.{
  ℕ, ◌-◌, ◌/◌, ◌%◌, ◌^◌, ◌==◌, ltb, bit_xor, if◌then◌else◌, Bool, List, length, get_elem?, set,
  take, drop, ◌++◌, Option, none, some,
}
use usrp_atsc.Common.Maybe.{◌>>=◌}

unfoldable pub write : List ℕ → ℕ → ℕ → Option (List ℕ)
write xs i v = if ltb i (length xs) then some (set xs i v) else none

-- A copy of the first entries of a vector over those of another.
unfoldable pub copy_first : ℕ → List ℕ → List ℕ → Option (List ℕ)
copy_first n from to =
    if ltb (length from) n
    then none
    else if ltb (length to) n
    then none
    else some (take n from ++ drop n to)

-- `get_bit` and `flip_bit`
unfoldable pub get_bit : List ℕ → ℕ → Option Bool
get_bit bits pos = do byte ← get_elem? bits (pos / 8); some (byte / 2 ^ (7 - pos % 8) % 2 == 1)

unfoldable pub flip_bit : List ℕ → ℕ → Option (List ℕ)
flip_bit bits pos = do
  byte ← get_elem? bits (pos / 8)
  some (set bits (pos / 8) (bit_xor byte (2 ^ (7 - pos % 8))))
