-- ===== src/Ofdm/Permutation/Reverse.antt =====
-- `bit_reverse` undoes itself.
use usrp_atsc.Common.{
  ℕ, zero, suc, ◌+◌, ◌*◌, ◌/◌, ◌%◌, ◌^◌, ◌≤◌, ◌<◌, ◌≡◌, refl, ap, ◌∙◌, arith, ◌==◌, if◌then◌else◌,
}
use Prim.Native.Nat.{bit_and, bit_or, max}
use mathlib.Core.Path.{ap₂}
use native.Mathlib.Nat.{pow-suc, pow-le-pow_right}
use usrp_atsc.Common.And.{and-mask}
use usrp_atsc.Common.Or.{bit_or_digit, or-zero}
use usrp_atsc.Ofdm.Permutation.{bit_reverse_loop, bit_reverse}

-- What a digit counts at place `k`.
abbrev pub weight : ℕ → ℕ → ℕ
weight k b = if b == 0 then 0 else 2 ^ k

-- The lowest `k` digits of a number in the other order.
pub reversal : ℕ → ℕ → ℕ
reversal zero x = 0
reversal (suc k) x = weight k (x % 2) + reversal k (x / 2)

pub reversal-lt : (k x : ℕ) → reversal k x < 2 ^ k
unfolding reversal
reversal-lt zero x = omega arith
reversal-lt (suc k) x = let rest = reversal-lt k (x / 2) in ground (arith, pow-suc 2 k)

reversal-zero : (x : ℕ) → reversal 0 x ≡ 0
unfolding reversal
reversal-zero x = refl

reversal-suc : (k x : ℕ) → reversal (suc k) x ≡ weight k (x % 2) + reversal k (x / 2)
unfolding reversal
reversal-suc k x = refl

weight_double : (k b : ℕ) → weight (suc k) b ≡ weight k b * 2
weight_double k b = ground (arith, pow-suc 2 k)

weight_units : (b : ℕ) → b < 2 → weight 0 b ≡ b
weight_units b h = ground (arith, h)

weight_digit : (k b a : ℕ) → (weight (suc k) b + a) % 2 ≡ a % 2
weight_digit k b a = omega (arith, weight_double k b)

weight_half : (k b a : ℕ) → (weight (suc k) b + a) / 2 ≡ weight k b + a / 2
weight_half k b a = omega (arith, weight_double k b)

-- A digit at the upper end comes to the lower end.
reversal-top :
    (k b a : ℕ) → b < 2 → a < 2 ^ k → reversal (suc k) (weight k b + a) ≡ reversal k a * 2 + b
reversal-top zero b a h h' =
    reversal-suc 0 (weight 0 b + a)
    ∙ omega (
      arith,
      weight_units ((weight 0 b + a) % 2) (omega arith),
      weight_units b h,
      reversal-zero ((weight 0 b + a) / 2),
      reversal-zero a,
    )
reversal-top (suc k) b a h h' =
    reversal-suc (suc k) (weight (suc k) b + a)
    ∙ ap₂ (λ d t. weight (suc k) d + reversal (suc k) t) (weight_digit k b a) (weight_half k b a)
    ∙ omega (
      arith,
      reversal-top k b (a / 2) h (omega (arith, h', pow-suc 2 k)),
      weight_double k (a % 2),
      reversal-suc k a,
    )

pub reversal-twice : (k x : ℕ) → x < 2 ^ k → reversal k (reversal k x) ≡ x
reversal-twice zero x h = omega (arith, h, reversal-zero (reversal 0 x))
reversal-twice (suc k) x h =
    ap (reversal (suc k)) (reversal-suc k x)
    ∙ reversal-top k (x % 2) (reversal k (x / 2)) (omega arith) (reversal-lt k (x / 2))
    ∙ omega (arith, reversal-twice k (x / 2) (omega (arith, pow-suc 2 k)))

-- A shift to the left and a digit in the free place.
or-shift : (r x : ℕ) → bit_or (r * 2) (bit_and x 1) ≡ r * 2 + x % 2
or-shift r x =
    ap (bit_or (r * 2)) (and-mask 1 x)
    ∙ bit_or_digit (r * 2) (x % 2)
    ∙ ap₂ (λ t u. bit_or t u * 2 + max (r * 2 % 2) (x % 2 % 2)) (omega arith) (omega arith)
    ∙ ap (λ t. t * 2 + max (r * 2 % 2) (x % 2 % 2)) (or-zero r)
    ∙ omega arith

shifted : (i r x : ℕ) → i < 64 → r < 2 ^ i → bit_or (r * 2 % 2 ^ 64) (bit_and x 1) ≡ r * 2 + x % 2
shifted i r x h h' = ap (λ t. bit_or t (bit_and x 1)) small ∙ or-shift r x
  where
    bound : 2 ^ suc i ≤ 2 ^ 64
    bound = pow-le-pow_right {n = 2} (omega arith) {i = suc i} {j = 64} (omega (arith, h))

    small : r * 2 % 2 ^ 64 ≡ r * 2
    small = omega (arith, bound, h', pow-suc 2 i)

scaled : (k r d : ℕ) → d < 2 → (r * 2 + d) * 2 ^ k ≡ r * 2 ^ suc k + weight k d
scaled k r zero h = grind (arith, pow-suc 2 k)
scaled k r (suc zero) h = grind (arith, pow-suc 2 k)
scaled k r (suc (suc d)) h = absurd (omega (arith, h))

bit_reverse_loop-reversal :
    (k i r x : ℕ) → i + k ≤ 64 → r < 2 ^ i → bit_reverse_loop k r x ≡ r * 2 ^ k + reversal k x
unfolding bit_reverse_loop reversal
bit_reverse_loop-reversal zero i r x h h' = omega arith
bit_reverse_loop-reversal (suc k) i r x h h' =
    ap (λ t. bit_reverse_loop k t (x / 2)) (shifted i r x (omega (arith, h)) h')
    ∙ bit_reverse_loop-reversal k (suc i) (r * 2 + x % 2) (x / 2) (omega (arith, h))
        (omega (arith, h', pow-suc 2 i))
    ∙ omega (arith, scaled k r (x % 2) (omega arith))

pub bit_reverse-reversal : (k x : ℕ) → k ≤ 64 → bit_reverse x k ≡ reversal k x
unfolding bit_reverse
bit_reverse-reversal k x h =
    bit_reverse_loop-reversal k 0 0 x (omega arith) (omega arith) ∙ omega arith
