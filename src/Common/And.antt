-- ===== src/Common/And.antt =====
-- Bitwise and at a mask of low bits.
use Prim.Native.Nat.{
  ℕ, zero, suc, ◌+◌, ◌-◌, ◌*◌, ◌/◌, ◌%◌, ◌^◌, ◌≤◌, ◌<◌, min, bit_and, digits, bit_and-bitwise,
}
use mathlib.Core.Path.{◌≡◌, refl, sym, ap, ap₂, ◌∙◌}
use native.Mathlib.Nat.{
  pow-suc, one-le-pow, mul-add-mod_self_right, mod-eq_of_lt, mod-lt, div-add-mod,
}
use native.Mathlib.Omega.{arith}

abbrev and_digits : ℕ → ℕ → ℕ → ℕ
and_digits fuel x y = digits (λ t. 0) min fuel x y

and_spare : (fuel k x y : ℕ) → x ≤ fuel → x ≤ k → and_digits fuel x y ≡ and_digits k x y
and_spare zero zero zero y h h' = refl
and_spare zero (suc k) zero y h h' = refl
and_spare (suc fuel) zero zero y h h' = refl
and_spare (suc fuel) (suc k) zero y h h' = refl
and_spare zero k (suc x) y h h' = absurd (omega arith)
and_spare (suc fuel) zero (suc x) y h h' = absurd (omega arith)
and_spare (suc fuel) (suc k) (suc x) y h h' =
    ap (λ t. t * 2 + min (suc x % 2) (y % 2))
      (and_spare fuel k (suc x / 2) (y / 2) (omega arith) (omega arith))

-- The lowest digit of a bitwise and.
pub bit_and_digit : (a b : ℕ) → bit_and a b ≡ bit_and (a / 2) (b / 2) * 2 + min (a % 2) (b % 2)
bit_and_digit zero b = simp bit_and-bitwise (omega arith)
bit_and_digit (suc a) b =
    simp bit_and-bitwise
      (omega (arith, and_spare a (suc a / 2) (suc a / 2) (b / 2) (omega arith) (omega arith)))

and-zero_below : (bound a : ℕ) → a < bound → bit_and a 0 ≡ 0
and-zero_below zero a h = absurd (omega arith)
and-zero_below (suc bound) zero h = refl
and-zero_below (suc bound) (suc a) h =
    omega (arith, bit_and_digit (suc a) 0, and-zero_below bound (suc a / 2) (omega arith))

-- A remainder by a doubled number, from its lowest digit.
pub mod-double : (m a : ℕ) → 0 < m → a % (m * 2) ≡ a / 2 % m * 2 + a % 2
mod-double m a h =
    ap (λ t. t % (m * 2)) split
    ∙ mul-add-mod_self_right (a / 2 / m) (m * 2) (a / 2 % m * 2 + a % 2)
    ∙ mod-eq_of_lt small
  where
    rest : a / 2 % m < m
    rest = mod-lt (a / 2) h

    small : a / 2 % m * 2 + a % 2 < m * 2
    small = omega (arith, rest)

    split : a ≡ a / 2 / m * (m * 2) + (a / 2 % m * 2 + a % 2)
    split = grind (arith, div-add-mod (a / 2) m)

-- A mask of `k` ones takes a remainder.
pub and-mask : (k a : ℕ) → bit_and a (2 ^ k - 1) ≡ a % 2 ^ k
and-mask zero a = and-zero_below (suc a) a (omega arith) ∙ omega arith
and-mask (suc k) a =
    bit_and_digit a (2 ^ suc k - 1)
    ∙ ap₂ (λ t u. bit_and (a / 2) t * 2 + min (a % 2) u) half odd
    ∙ ap₂ (λ t u. t * 2 + u) (and-mask k (a / 2)) digit
    ∙ sym (mod-double (2 ^ k) a (one-le-pow k 2 (omega arith)))
    ∙ ap (λ t. a % t) (sym (pow-suc 2 k))
  where
    double : 2 ^ suc k ≡ 2 ^ k * 2
    double = pow-suc 2 k

    half : (2 ^ suc k - 1) / 2 ≡ 2 ^ k - 1
    half = omega (arith, double, one-le-pow k 2)

    odd : (2 ^ suc k - 1) % 2 ≡ 1
    odd = omega (arith, double, one-le-pow k 2)

    digit : min (a % 2) 1 ≡ a % 2
    digit = omega arith
