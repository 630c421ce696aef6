-- ===== src/L1/Bits/Value.antt =====
-- What `extract_bits` returns: the number that a range of the bits of the buffer spells, or a fault
-- when the range reaches past the end.
use usrp_atsc.Common.{
  ℕ, zero, suc, ltb, ◌+◌, ◌-◌, ◌*◌, ◌/◌, ◌%◌, ◌^◌, ◌==◌, ◌<◌, ◌≤◌, ◌≡◌, refl, sym, ap, ◌∙◌,
  length-take, length-drop, arith, Option-cases, inl, inr, if◌then◌else◌, Bool, List, [], ◌∷◌,
  length, get_elem?, take, drop, Option, none, some,
}
use native.Mathlib.Nat.{pow-suc}
use usrp_atsc.Common.Maybe.{◌>>=◌, bind-none}
use usrp_atsc.L1.Bits.{bit_at, extract_loop, extract_bits}

-- The bits of a buffer, in the order in which they are sent.
abbrev pub bits_of : List ℕ → List Bool
bits_of [] = []
bits_of (b ∷ bytes) =
    bit_at b 0
    ∷ bit_at b 1
    ∷ bit_at b 2
    ∷ bit_at b 3
    ∷ bit_at b 4
    ∷ bit_at b 5
    ∷ bit_at b 6
    ∷ bit_at b 7
    ∷ bits_of bytes

-- The number that bits spell, the most significant first.
abbrev pub value : List Bool → ℕ
value [] = 0
value (b ∷ bits) = (if b then 2 ^ length bits else 0) + value bits

pub length-bits_of : (bytes : List ℕ) → length (bits_of bytes) ≡ 8 * length bytes
length-bits_of [] = refl
length-bits_of (b ∷ bytes) = omega (arith, length-bits_of bytes)

-- Eight bits further on is the same bit of the next byte.
byte_on :
    (b : ℕ) (bytes : List ℕ) (pos later : ℕ)
    → later ≡ pos + 8
    → (get_elem? (b ∷ bytes) (later / 8) >>= λ byte. some (bit_at byte later))
      ≡ (get_elem? bytes (pos / 8) >>= λ byte. some (bit_at byte pos))
byte_on b bytes pos later h =
    ap (λ k. get_elem? (b ∷ bytes) k >>= λ byte. some (bit_at byte later)) next
    ∙ ap (λ k. get_elem? bytes (pos / 8) >>= λ byte. some (byte / 2 ^ (7 - k) % 2 == 1)) same
  where
    next : later / 8 ≡ suc (pos / 8)
    next = omega arith

    same : later % 8 ≡ pos % 8
    same = omega arith

get_elem?-bits_of :
    (bytes : List ℕ) (pos : ℕ)
    → get_elem? (bits_of bytes) pos ≡ (get_elem? bytes (pos / 8) >>= λ byte. some (bit_at byte pos))
get_elem?-bits_of [] pos = refl
get_elem?-bits_of (b ∷ bytes) zero = refl
get_elem?-bits_of (b ∷ bytes) (suc zero) = refl
get_elem?-bits_of (b ∷ bytes) (suc (suc zero)) = refl
get_elem?-bits_of (b ∷ bytes) (suc (suc (suc zero))) = refl
get_elem?-bits_of (b ∷ bytes) (suc (suc (suc (suc zero)))) = refl
get_elem?-bits_of (b ∷ bytes) (suc (suc (suc (suc (suc zero))))) = refl
get_elem?-bits_of (b ∷ bytes) (suc (suc (suc (suc (suc (suc zero)))))) = refl
get_elem?-bits_of (b ∷ bytes) (suc (suc (suc (suc (suc (suc (suc zero))))))) = refl
get_elem?-bits_of (b ∷ bytes) (suc (suc (suc (suc (suc (suc (suc (suc pos)))))))) =
    get_elem?-bits_of bytes pos ∙ sym (byte_on b bytes pos _ (omega arith))

get_elem?-below {ℓ} :
    {A : Type ℓ} (xs : List A) (i : ℕ) → i < length xs → (x : A) × (get_elem? xs i ≡ some x)
get_elem?-below [] i h = absurd (omega arith)
get_elem?-below (x ∷ xs) zero h = (x, refl)
get_elem?-below (x ∷ xs) (suc i) h = get_elem?-below xs i (omega arith)

drop-get_elem? {ℓ} :
    {A : Type ℓ} (xs : List A) (i : ℕ) (x : A)
    → get_elem? xs i ≡ some x
    → drop i xs ≡ x ∷ drop (suc i) xs
drop-get_elem? [] i x h = cc
drop-get_elem? (y ∷ xs) zero x h = cc
drop-get_elem? (y ∷ xs) (suc i) x h = drop-get_elem? xs i x h

-- A bit whose place is inside of 32 bits.
abbrev added : Bool → ℕ → ℕ → ℕ
added b n result = if b then result + 2 ^ n else result

abbrev place : Bool → ℕ → ℕ → Option ℕ
place b n result = if b then (if ltb n 32 then some (result + 2 ^ n) else none) else some result

place-added : (b : Bool) (n result : ℕ) → n < 32 → place b n result ≡ some (added b n result)
place-added b n result h = ground arith

value-cons :
    (b : Bool) (bits : List Bool) (n result : ℕ)
    → length bits ≡ n
    → (if b then result + 2 ^ n else result) + value bits ≡ result + value (b ∷ bits)
value-cons b bits n result h = ground (arith, ap (λ k. 2 ^ k) h)

length-take-drop {ℓ} :
    {A : Type ℓ} (xs : List A) (i n : ℕ) → i + n ≤ length xs → length (take n (drop i xs)) ≡ n
length-take-drop xs i n h = omega (arith, length-take n (drop i xs), length-drop i xs)

-- A round of the loop, on what it reads.
abbrev read : ℕ → ℕ → ℕ → List ℕ → Option ℕ → Option ℕ
read pos n result bytes o =
    o >>= λ byte. (place (bit_at byte pos) n result >>= λ next. extract_loop bytes (pos + 1) n next)

-- Of 32 bits or fewer, the loop adds the number that the bits from `pos` on spell.
extract_loop-value :
    (bytes : List ℕ) (pos n result : ℕ)
    → n ≤ 32
    → pos + n ≤ 8 * length bytes
    → extract_loop bytes pos n result ≡ some (result + value (take n (drop pos (bits_of bytes))))
unfolding extract_loop
extract_loop-value bytes pos zero result w h = ap some (omega arith)
extract_loop-value bytes pos (suc n) result w h =
    let (byte, e) = get_elem?-below bytes (pos / 8) (omega arith) in
    let bits = bits_of bytes in
    let b = bit_at byte pos in
    ap (read pos n result bytes) e
    ∙ ap (λ o. o >>= λ next. extract_loop bytes (pos + 1) n next)
        (place-added b n result (omega arith))
    ∙ extract_loop-value bytes (pos + 1) n (added b n result) (omega arith) (omega arith)
    ∙ ap some (
        value-cons b (take n (drop (pos + 1) bits)) n result
          (length-take-drop bits (pos + 1) n (omega (arith, length-bits_of bytes))))
    ∙ ap (λ k. some (result + value (b ∷ take n (drop k bits)))) (add_one pos)
    ∙ ap (λ ds. some (result + value (take (suc n) ds)))
        (sym (
          drop-get_elem? bits pos b
            (get_elem?-bits_of bytes pos ∙ ap (λ o. o >>= λ byte. some (bit_at byte pos)) e)))
  where
    add_one : (k : ℕ) → k + 1 ≡ suc k
    add_one k = omega arith

value-below : (bits : List Bool) → value bits < 2 ^ length bits
value-below [] = omega arith
value-below (b ∷ bits) = ground (arith, value-below bits, pow-suc 2 (length bits))

pub extract_bits-value :
    (bytes : List ℕ) (offset n : ℕ)
    → n ≤ 32
    → offset + n ≤ 8 * length bytes
    → (extract_bits bytes offset n ≡ some (value (take n (drop offset (bits_of bytes)))))
      × (value (take n (drop offset (bits_of bytes))) < 2 ^ n)
unfolding extract_bits
extract_bits-value bytes offset n w h = (
  extract_loop-value bytes offset n 0 w h ∙ ap some (omega arith),
  omega (
    arith,
    value-below (take n (drop offset (bits_of bytes))),
    ap (λ k. 2 ^ k)
        (length-take-drop (bits_of bytes) offset n (omega (arith, length-bits_of bytes))),
  ),
)

get_elem?-inside {ℓ} :
    {A : Type ℓ} (xs : List A) (i : ℕ) (x : A) → get_elem? xs i ≡ some x → i < length xs
get_elem?-inside [] i x h = cc
get_elem?-inside (y ∷ xs) zero x h = omega arith
get_elem?-inside (y ∷ xs) (suc i) x h = omega (arith, get_elem?-inside xs i x h)

extract_loop-outside :
    (bytes : List ℕ) (pos n result : ℕ)
    → 8 * length bytes < pos + n
    → 0 < n
    → extract_loop bytes pos n result ≡ none
unfolding extract_loop
extract_loop-outside bytes pos zero result h positive = absurd (omega arith)
extract_loop-outside bytes pos (suc n) result h positive =
    elim (Option-cases (get_elem? bytes (pos / 8))) [
      | inl outside ↦ ap (read pos n result bytes) outside
      | inr (byte, e) ↦
          ap (read pos n result bytes) e
          ∙ bind-none (place (bit_at byte pos) n result) _ λ next.
            extract_loop-outside bytes (pos + 1) n next (omega arith)
              (omega (arith, get_elem?-inside bytes (pos / 8) byte e))
    ]

-- Where it reaches past the end, a fault.
pub extract_bits-outside :
    (bytes : List ℕ) (offset n : ℕ)
    → 0 < n
    → 8 * length bytes < offset + n
    → extract_bits bytes offset n ≡ none
unfolding extract_bits
extract_bits-outside bytes offset n positive h = extract_loop-outside bytes offset n 0 h positive
