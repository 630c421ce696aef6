-- ===== src/Ofdm/Permutation/Power.antt =====
-- `next_power_of_two` and the bits of the padded size.
use usrp_atsc.Common.{
  ℕ, zero, suc, ◌+◌, ◌-◌, ◌*◌, ◌/◌, ◌%◌, ◌^◌, ◌≤◌, ◌<◌, ◌≡◌, refl, sym, ap, ◌∙◌, arith, ◌==◌,
  lt→ltb, if◌then◌else◌, if-true, if-false, ◌⊎◌, inl, inr,
}
use Prim.Native.Nat.{bit_or, max}
use mathlib.Core.Path.{ap₂, subst}
use native.Mathlib.Nat.{pow-suc, div-div-eq-div-mul, div-one, div-eq_of_lt, mod-eq_of_lt}
use usrp_atsc.Common.Or.{
  bit_or_digit, zero-or, or-zero, bit_or_half, or_assoc, or_self, or_le, or-lt_pow,
}
use usrp_atsc.Ofdm.Permutation.{
  smear, smear_step, next_power_of_two, count_bits_loop, count_bits, bits_for,
}

-- A number, and its first `w - 1` shifts to the right, joined by bitwise or.
shifts : ℕ → ℕ → ℕ
shifts zero x = 0
shifts (suc w) x = bit_or x (shifts w (x / 2))

shifts-zero : (x : ℕ) → shifts 0 x ≡ 0
unfolding shifts
shifts-zero x = refl

shifts-suc : (w x : ℕ) → shifts (suc w) x ≡ bit_or x (shifts w (x / 2))
unfolding shifts
shifts-suc w x = refl

shifts-half : (w x : ℕ) → shifts w x / 2 ≡ shifts w (x / 2)
unfolding shifts
shifts-half zero x = refl
shifts-half (suc w) x =
    bit_or_half x (shifts w (x / 2)) ∙ ap (bit_or (x / 2)) (shifts-half w (x / 2))

half_pow : (b x : ℕ) → x / 2 / 2 ^ b ≡ x / 2 ^ suc b
half_pow b x = div-div-eq-div-mul x 2 (2 ^ b) ∙ ap (◌/◌ x) double
  where
    double : 2 * 2 ^ b ≡ 2 ^ suc b
    double = omega (arith, pow-suc 2 b)

shifts-shift : (b w x : ℕ) → shifts w x / 2 ^ b ≡ shifts w (x / 2 ^ b)
shifts-shift zero w x = div-one (shifts w x) ∙ ap (shifts w) (sym (div-one x))
shifts-shift (suc b) w x =
    sym (half_pow b (shifts w x))
    ∙ ap (λ t. t / 2 ^ b) (shifts-half w x)
    ∙ shifts-shift b w (x / 2)
    ∙ ap (shifts w) (half_pow b x)

shifts-add : (a b x : ℕ) → shifts (a + b) x ≡ bit_or (shifts a x) (shifts b (x / 2 ^ a))
shifts-add zero b x =
    ap₂ shifts zero_add (sym (div-one x))
    ∙ sym (zero-or (shifts b (x / 2 ^ 0)))
    ∙ ap (λ t. bit_or t (shifts b (x / 2 ^ 0))) (sym (shifts-zero x))
  where
    zero_add : 0 + b ≡ b
    zero_add = omega arith
shifts-add (suc a) b x =
    ap (λ t. shifts t x) suc_add
    ∙ shifts-suc (a + b) x
    ∙ ap (bit_or x) (shifts-add a b (x / 2))
    ∙ sym (or_assoc x (shifts a (x / 2)) (shifts b (x / 2 / 2 ^ a)))
    ∙ ap₂ (λ t u. bit_or t (shifts b u)) (sym (shifts-suc a x)) (half_pow a x)
  where
    suc_add : suc a + b ≡ suc (a + b)
    suc_add = omega arith

smear_step-shifts : (w x : ℕ) → smear_step w (shifts w x) ≡ shifts (w + w) x
smear_step-shifts w x = ap (bit_or (shifts w x)) (shifts-shift w w x) ∙ sym (shifts-add w w x)

shifts-one : (x : ℕ) → shifts 1 x ≡ x
shifts-one x = shifts-suc 0 x ∙ ap (bit_or x) (shifts-zero (x / 2)) ∙ or-zero x

smear-shifts : (x : ℕ) → smear x ≡ shifts 64 x
smear-shifts x =
    let s1 = ap (smear_step 1) (sym (shifts-one x)) ∙ smear_step-shifts 1 x in
    let s2 = ap (smear_step 2) s1 ∙ smear_step-shifts 2 x in
    let s4 = ap (smear_step 4) s2 ∙ smear_step-shifts 4 x in
    let s8 = ap (smear_step 8) s4 ∙ smear_step-shifts 8 x in
    let s16 = ap (smear_step 16) s8 ∙ smear_step-shifts 16 x in
    ap (smear_step 32) s16 ∙ smear_step-shifts 32 x

-- A number that has no more than `w` digits, with all its shifts, takes nothing from its half.
shifts-closed : (w x : ℕ) → x / 2 ^ w ≡ 0 → bit_or (shifts w x) (shifts w x / 2) ≡ shifts w x
shifts-closed w x h =
    let rest = shifts w (x / 2) in
    let all : bit_or x rest ≡ shifts w x =
      sym (shifts-suc w x)
      ∙ ap (λ t. shifts t x) (omega arith)
      ∙ shifts-add w 1 x
      ∙ ap (bit_or (shifts w x)) (shifts-one (x / 2 ^ w) ∙ h)
      ∙ or-zero (shifts w x) in
    ap₂ bit_or (sym all) (shifts-half w x)
    ∙ or_assoc x rest rest
    ∙ ap (bit_or x) (or_self rest)
    ∙ all

shifts-lt : (k w x : ℕ) → x < 2 ^ k → shifts w x < 2 ^ k
unfolding shifts
shifts-lt k zero x h = omega (arith, h)
shifts-lt k (suc w) x h =
    or-lt_pow k x (shifts w (x / 2)) h (shifts-lt k w (x / 2) (omega (arith, h)))

shifts-le : (w x : ℕ) → x ≤ shifts (suc w) x
unfolding shifts
shifts-le w x = or_le x (shifts w (x / 2))

-- A number that takes nothing from its half is all ones.
odd_below :
    (s n : ℕ) → 0 < s → max (s % 2) (s / 2 % 2) ≡ s % 2 → s / 2 + 1 ≡ 2 ^ n → s + 1 ≡ 2 ^ suc n
odd_below s zero pos h e = ground (arith, h, e)
odd_below s (suc n) pos h e = ground (arith, h, e, pow-suc 2 n, pow-suc 2 (suc n))

all_ones : (k s : ℕ) → s < 2 ^ k → bit_or s (s / 2) ≡ s → s + 1 ≡ 2 ^ count_bits_loop k s
unfolding count_bits_loop
all_ones zero s h e = omega (arith, h)
all_ones (suc k) zero h e = refl
all_ones (suc k) (suc s) h e =
    odd_below (suc s) (count_bits_loop k (suc s / 2)) (omega arith)
      (omega (arith, bit_or_digit (suc s) (suc s / 2), e))
      (all_ones k (suc s / 2) (omega (arith, h, pow-suc 2 k))
        (sym (bit_or_half (suc s) (suc s / 2)) ∙ ap (λ t. t / 2) e))
    ∙ ap (◌^◌ 2) (
        sym (
          if-true (count_bits_loop k (suc s / 2) + 1) 0 (lt→ltb 0 (suc s) (omega arith))
          ∙ omega arith))

count_bits-le : (k s : ℕ) → count_bits_loop k s ≤ k
unfolding count_bits_loop
count_bits-le zero s = omega arith
count_bits-le (suc k) s = let rest = count_bits-le k (s / 2) in ground (arith, rest)

-- The padded size of a size up to 2 ^ 63, and its bits. A size of 1 has one bit too.
pub record Padded (n : ℕ) : Type 0 where
  pub covers : n ≤ next_power_of_two n
  pub few : bits_for n ≤ 64
  pub power : (n ≡ 1) ⊎ (next_power_of_two n ≡ 2 ^ bits_for n)

smear-all_ones : (m : ℕ) → m < 2 ^ 63 → smear m + 1 ≡ 2 ^ count_bits (smear m)
unfolding count_bits
smear-all_ones m h =
    ap (λ s. s + 1) (smear-shifts m)
    ∙ all_ones 64 (shifts 64 m) (shifts-lt 64 64 m (omega (arith, h)))
        (shifts-closed 64 m (div-eq_of_lt (omega (arith, h))))
    ∙ ap (λ s. 2 ^ count_bits_loop 64 s) (sym (smear-shifts m))

smear-lt : (m : ℕ) → m < 2 ^ 63 → smear m < 2 ^ 63
smear-lt m h = subst (λ s. s < 2 ^ 63) (sym (smear-shifts m)) (shifts-lt 63 64 m h)

smear-le : (m : ℕ) → m ≤ smear m
smear-le m = subst (λ s. m ≤ s) (sym (smear-shifts m)) (shifts-le 63 m)

next_power_of_two-suc : (m : ℕ) → m < 2 ^ 63 → next_power_of_two (suc m) ≡ smear m + 1
unfolding next_power_of_two
next_power_of_two-suc m h = mod-eq_of_lt small
  where
    small : smear m + 1 < 2 ^ 64
    small = omega (arith, smear-lt m h)

bits_for-suc :
    (m : ℕ)
    → m < 2 ^ 63
    → bits_for (suc m) ≡ (if count_bits (smear m) == 0 then 1 else count_bits (smear m))
unfolding bits_for
bits_for-suc m h = ap (λ b. if b == 0 then 1 else b) (ap count_bits less)
  where
    less : next_power_of_two (suc m) - 1 ≡ smear m
    less = omega (arith, next_power_of_two-suc m h)

bits_few : (m : ℕ) → count_bits (smear m) ≤ 64
unfolding count_bits
bits_few m = count_bits-le 64 (smear m)

power_of_bits :
    (m b : ℕ)
    → m < 2 ^ 63
    → b ≡ count_bits (smear m)
    → (m ≡ 0) ⊎ (smear m + 1 ≡ 2 ^ (if b == 0 then 1 else b))
power_of_bits m zero h e =
    let ones : smear m + 1 ≡ 2 ^ 0 = smear-all_ones m h ∙ ap (◌^◌ 2) (sym e) in
    inl (omega (arith, ones, smear-le m))
power_of_bits m (suc b) h e =
    inr (smear-all_ones m h ∙ ap (◌^◌ 2) (sym e ∙ sym (if-false 1 (suc b) (ground arith))))

pub Padded-suc : (m : ℕ) → m < 2 ^ 63 → Padded (suc m)
Padded-suc m h = record {
  covers = omega (arith, next_power_of_two-suc m h, smear-le m);
  few = ground (arith, bits_for-suc m h, bits_few m);
  power = elim (power_of_bits m (count_bits (smear m)) h refl) [
    | inl e ↦ inl (ap suc e)
    | inr e ↦ inr (next_power_of_two-suc m h ∙ e ∙ ap (◌^◌ 2) (sym (bits_for-suc m h)))
  ];
}
