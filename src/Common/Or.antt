-- ===== src/Common/Or.antt =====
-- Bitwise or: its digits and its laws.
use Prim.Native.Nat.{
  ℕ, zero, suc, ◌+◌, ◌*◌, ◌/◌, ◌%◌, ◌^◌, ◌≤◌, ◌<◌, max, bit_or, digits, bit_or-bitwise,
}
use mathlib.Core.Path.{◌≡◌, refl, sym, ap, ◌∙◌}
use native.Mathlib.Nat.{pow-suc}
use native.Mathlib.Omega.{arith}

abbrev or_digits : ℕ → ℕ → ℕ → ℕ
or_digits fuel x y = digits (λ t. t) max fuel x y

-- Fuel that is not needed.
or_spare : (fuel k x y : ℕ) → x ≤ fuel → x ≤ k → or_digits fuel x y ≡ or_digits k x y
or_spare zero zero zero y h h' = refl
or_spare zero (suc k) zero y h h' = refl
or_spare (suc fuel) zero zero y h h' = refl
or_spare (suc fuel) (suc k) zero y h h' = refl
or_spare zero k (suc x) y h h' = absurd (omega arith)
or_spare (suc fuel) zero (suc x) y h h' = absurd (omega arith)
or_spare (suc fuel) (suc k) (suc x) y h h' =
    ap (λ t. t * 2 + max (suc x % 2) (y % 2))
      (or_spare fuel k (suc x / 2) (y / 2) (omega arith) (omega arith))

pub zero-or : (b : ℕ) → bit_or 0 b ≡ b
zero-or b = simp bit_or-bitwise refl

-- The lowest digit of a bitwise or.
pub bit_or_digit : (a b : ℕ) → bit_or a b ≡ bit_or (a / 2) (b / 2) * 2 + max (a % 2) (b % 2)
bit_or_digit zero b = zero-or b ∙ omega (arith, zero-or (b / 2))
bit_or_digit (suc a) b =
    simp bit_or-bitwise
      (omega (arith, or_spare a (suc a / 2) (suc a / 2) (b / 2) (omega arith) (omega arith)))

pub bit_or_half : (a b : ℕ) → bit_or a b / 2 ≡ bit_or (a / 2) (b / 2)
bit_or_half a b = omega (arith, bit_or_digit a b)

bit_or_parity : (a b : ℕ) → bit_or a b % 2 ≡ max (a % 2) (b % 2)
bit_or_parity a b = omega (arith, bit_or_digit a b)

-- An equation of numbers holds when it holds of the halves and of the lowest digits.
by_digits : (x y : ℕ) → x / 2 ≡ y / 2 → x % 2 ≡ y % 2 → x ≡ y
by_digits x y h h' = omega arith

or-comm_below : (k a b : ℕ) → a < k → b < k → bit_or a b ≡ bit_or b a
or-comm_below zero a b h h' = absurd (omega arith)
or-comm_below (suc k) zero zero h h' = refl
or-comm_below (suc k) zero (suc b) h h' =
    by_digits (bit_or 0 (suc b)) (bit_or (suc b) 0)
      (bit_or_half 0 (suc b)
        ∙ or-comm_below k 0 (suc b / 2) (omega arith) (omega arith)
        ∙ sym (bit_or_half (suc b) 0))
      (omega (arith, bit_or_parity 0 (suc b), bit_or_parity (suc b) 0))
or-comm_below (suc k) (suc a) b h h' =
    by_digits (bit_or (suc a) b) (bit_or b (suc a))
      (bit_or_half (suc a) b
        ∙ or-comm_below k (suc a / 2) (b / 2) (omega arith) (omega arith)
        ∙ sym (bit_or_half b (suc a)))
      (omega (arith, bit_or_parity (suc a) b, bit_or_parity b (suc a)))

pub or_comm : (a b : ℕ) → bit_or a b ≡ bit_or b a
or_comm a b = or-comm_below (suc (a + b)) a b (omega arith) (omega arith)

pub or-zero : (a : ℕ) → bit_or a 0 ≡ a
or-zero a = or_comm a 0 ∙ zero-or a

or-assoc_below : (k a b c : ℕ) → a < k → bit_or (bit_or a b) c ≡ bit_or a (bit_or b c)
or-assoc_below zero a b c h = absurd (omega arith)
or-assoc_below (suc k) zero b c h = ap (λ t. bit_or t c) (zero-or b) ∙ sym (zero-or (bit_or b c))
or-assoc_below (suc k) (suc a) b c h =
    by_digits (bit_or (bit_or (suc a) b) c) (bit_or (suc a) (bit_or b c))
      (bit_or_half (bit_or (suc a) b) c
        ∙ ap (λ t. bit_or t (c / 2)) (bit_or_half (suc a) b)
        ∙ or-assoc_below k (suc a / 2) (b / 2) (c / 2) (omega arith)
        ∙ sym (ap (bit_or (suc a / 2)) (bit_or_half b c))
        ∙ sym (bit_or_half (suc a) (bit_or b c)))
      (omega (
        arith,
        bit_or_parity (bit_or (suc a) b) c,
        bit_or_parity (suc a) b,
        bit_or_parity b c,
        bit_or_parity (suc a) (bit_or b c),
      ))

pub or_assoc : (a b c : ℕ) → bit_or (bit_or a b) c ≡ bit_or a (bit_or b c)
or_assoc a b c = or-assoc_below (suc a) a b c (omega arith)

or-self_below : (k a : ℕ) → a < k → bit_or a a ≡ a
or-self_below zero a h = absurd (omega arith)
or-self_below (suc k) zero h = zero-or 0
or-self_below (suc k) (suc a) h =
    by_digits (bit_or (suc a) (suc a)) (suc a)
      (bit_or_half (suc a) (suc a) ∙ or-self_below k (suc a / 2) (omega arith))
      (omega (arith, bit_or_parity (suc a) (suc a)))

pub or_self : (a : ℕ) → bit_or a a ≡ a
or_self a = or-self_below (suc a) a (omega arith)

or-le_below : (k a b : ℕ) → a < k → a ≤ bit_or a b
or-le_below zero a b h = absurd (omega arith)
or-le_below (suc k) zero b h = omega arith
or-le_below (suc k) (suc a) b h =
    omega (arith, bit_or_digit (suc a) b, or-le_below k (suc a / 2) (b / 2) (omega arith))

pub or_le : (a b : ℕ) → a ≤ bit_or a b
or_le a b = or-le_below (suc a) a b (omega arith)

pub or-lt_pow : (k a b : ℕ) → a < 2 ^ k → b < 2 ^ k → bit_or a b < 2 ^ k
or-lt_pow zero a b h h' =
    let e : a ≡ 0 = omega arith in omega (arith, ap (λ t. bit_or t b) e, zero-or b)
or-lt_pow (suc k) a b h h' = omega (
  arith,
  bit_or_digit a b,
  pow-suc 2 k,
  or-lt_pow k (a / 2) (b / 2) (omega (arith, pow-suc 2 k)) (omega (arith, pow-suc 2 k)),
)
