-- ===== src/Common/Bits.antt =====
-- Exclusive or at variables, from the digit recursion that the native operation stands for.
use Prim.Native.Nat.{
  ℕ, zero, suc, ◌+◌, ◌*◌, ◌/◌, ◌%◌, ◌^◌, ◌≤◌, ◌<◌, bit_xor, digits, differ, bit_xor-bitwise,
}
use mathlib.Core.Path.{◌≡◌, refl, ap, ap₂, ◌∙◌}
use mathlib.Core.Logic.{◌⊎◌, inl, inr}
use native.Mathlib.Decide.{dec_le}
use native.Mathlib.Nat.{pow-suc, one-le-pow, mul-add-mod_self_right, mod-eq_of_lt}
use native.Mathlib.Omega.{arith}
use mathlib.Core.WellFounded
use usrp_atsc.Common.Order.{lt_wf}

Zero-cases : (n : ℕ) → (n ≡ 0) ⊎ ((m : ℕ) × (n ≡ suc m))
Zero-cases zero = inl refl
Zero-cases (suc m) = inr (m, refl)

-- The digits of an exclusive or, lowest first, on fuel that bounds the left value.
abbrev xor_digits : ℕ → ℕ → ℕ → ℕ
xor_digits fuel x y = digits (λ t. t) differ fuel x y

one_more : (fuel x y : ℕ) → x ≤ fuel → xor_digits (suc fuel) x y ≡ xor_digits fuel x y
one_more fuel zero y h = elim (Zero-cases fuel) [ inl e ↦ rw e | inr (f, e) ↦ rw e ]
one_more zero (suc x) y h = absurd (omega arith)
one_more (suc fuel) (suc x) y h =
    ap (λ t. t * 2 + differ (suc x % 2) (y % 2)) (one_more fuel (suc x / 2) (y / 2) (omega arith))

-- Spare fuel changes nothing.
exact : (fuel x y : ℕ) → x ≤ fuel → xor_digits fuel x y ≡ xor_digits x x y
exact zero zero y h = refl
exact zero (suc x) y h = absurd (omega arith)
exact (suc fuel) x y h = elim (dec_le x fuel) [
  | yes small ↦ one_more fuel x y small ∙ exact fuel x y small
  | no large ↦ let e : suc fuel ≡ x = omega arith in ap (λ t. xor_digits t x y) e
]

differ_lem : (a b : ℕ) → a < 2 → b < 2 → differ a b ≡ (a + b) % 2
differ_lem zero zero h k = refl
differ_lem zero (suc zero) h k = refl
differ_lem zero (suc (suc b)) h k = absurd (omega arith)
differ_lem (suc zero) zero h k = refl
differ_lem (suc zero) (suc zero) h k = refl
differ_lem (suc zero) (suc (suc b)) h k = absurd (omega arith)
differ_lem (suc (suc a)) b h k = absurd (omega arith)

-- The sum of two digits without its carry.
differ_digit : (a b : ℕ) → differ (a % 2) (b % 2) ≡ (a + b) % 2
differ_digit a b = differ_lem (a % 2) (b % 2) (omega arith) (omega arith) ∙ omega arith

pub bit_xor_step : (a b : ℕ) → bit_xor a b ≡ bit_xor (a / 2) (b / 2) * 2 + (a + b) % 2
bit_xor_step zero b = simp bit_xor-bitwise (omega arith)
bit_xor_step (suc a) b =
    simp bit_xor-bitwise
      (omega (arith, exact a (suc a / 2) (b / 2) (omega arith), differ_digit (suc a) b))

xor-zero_below : (bound a : ℕ) → a < bound → bit_xor a 0 ≡ a
xor-zero_below zero a h = absurd (omega arith)
xor-zero_below (suc bound) zero h = refl
xor-zero_below (suc bound) (suc a) h =
    omega (arith, bit_xor_step (suc a) 0, xor-zero_below bound (suc a / 2) (omega arith))

pub xor-zero : (a : ℕ) → bit_xor a 0 ≡ a
xor-zero a = xor-zero_below (suc a) a (omega arith)

pub zero-xor : (b : ℕ) → bit_xor 0 b ≡ b
zero-xor b = bit_xor-bitwise 0 b

half-xor : (a b : ℕ) → bit_xor a b / 2 ≡ bit_xor (a / 2) (b / 2)
half-xor a b = omega (arith, bit_xor_step a b)

xor_assoc_step :
    (a b c : ℕ)
    → bit_xor (bit_xor (a / 2) (b / 2)) (c / 2) ≡ bit_xor (a / 2) (bit_xor (b / 2) (c / 2))
    → bit_xor (bit_xor a b) c ≡ bit_xor a (bit_xor b c)
xor_assoc_step a b c h =
    rw (bit_xor_step (bit_xor a b) c, bit_xor_step a (bit_xor b c), half-xor a b, half-xor b c)
      (omega (arith, h, bit_xor_step a b, bit_xor_step b c))

pub shift-suc : (value places : ℕ) → value * 2 ^ suc places ≡ 2 * (value * 2 ^ places)
shift-suc value places = grind (arith, pow-suc 2 places)

-- A result has no more digits than its arguments.
pub xor-lt : (k a b : ℕ) → a < 2 ^ k → b < 2 ^ k → bit_xor a b < 2 ^ k
xor-lt zero a b h h' =
    let p : a ≡ 0 = omega arith in let q : b ≡ 0 = omega arith in rw (p, q) (omega arith)
xor-lt (suc k) a b h h' = omega (
  arith,
  bit_xor_step a b,
  pow-suc 2 k,
  xor-lt k (a / 2) (b / 2) (omega (arith, pow-suc 2 k)) (omega (arith, pow-suc 2 k)),
)

-- The top digits of the results are the results of the top digits.
pub xor-fields :
    (k a b c d : ℕ)
    → c < 2 ^ k
    → d < 2 ^ k
    → bit_xor (a * 2 ^ k + c) (b * 2 ^ k + d) ≡ bit_xor a b * 2 ^ k + bit_xor c d
xor-fields zero a b c d h h' =
    let p : c ≡ 0 = omega arith in
    let q : d ≡ 0 = omega arith in
    let r : a * 2 ^ 0 + 0 ≡ a = omega arith in
    let s : b * 2 ^ 0 + 0 ≡ b = omega arith in rw (p, q, r, s) (omega arith)
xor-fields (suc k) a b c d h h' = ground (
  arith,
  bit_xor_step (a * 2 ^ suc k + c) (b * 2 ^ suc k + d),
  bit_xor_step c d,
  shift-suc a k,
  shift-suc b k,
  shift-suc (bit_xor a b) k,
  pow-suc 2 k,
  xor-fields k a b (c / 2) (d / 2),
)

pub xor_comm : (a b : ℕ) → bit_xor a b ≡ bit_xor b a
xor_comm a = WellFounded.induction lt_wf {C = λ n. (b : ℕ) → bit_xor n b ≡ bit_xor b n} a step
  where
    step :
        (n : ℕ)
        → ((m : ℕ) → m < n → (b : ℕ) → bit_xor m b ≡ bit_xor b m)
        → (b : ℕ) → bit_xor n b ≡ bit_xor b n
    step zero ih b = omega (arith, xor-zero b, zero-xor b)
    step (suc n) ih b = omega (
      arith,
      bit_xor_step (suc n) b,
      bit_xor_step b (suc n),
      ih (suc n / 2) (omega arith) (b / 2),
    )

pub xor_assoc : (a b c : ℕ) → bit_xor (bit_xor a b) c ≡ bit_xor a (bit_xor b c)
xor_assoc a =
    WellFounded.induction lt_wf
      {C = λ n. (b c : ℕ) → bit_xor (bit_xor n b) c ≡ bit_xor n (bit_xor b c)} a step
  where
    step :
        (n : ℕ)
        → ((m : ℕ) → m < n → (b c : ℕ) → bit_xor (bit_xor m b) c ≡ bit_xor m (bit_xor b c))
        → (b c : ℕ) → bit_xor (bit_xor n b) c ≡ bit_xor n (bit_xor b c)
    step zero ih b c = rw (zero-xor b, zero-xor (bit_xor b c))
    step (suc n) ih b c = xor_assoc_step (suc n) b c (ih (suc n / 2) (omega arith) (b / 2) (c / 2))

pub div-add-mod_two_pow : (k a : ℕ) → a ≡ a / 2 ^ k * 2 ^ k + a % 2 ^ k
div-add-mod_two_pow k a = omega arith

-- Digits above those of `b` stay as they are in `a`.
pub xor_low : (k a b : ℕ) → b < 2 ^ k → bit_xor a b ≡ a / 2 ^ k * 2 ^ k + bit_xor (a % 2 ^ k) b
xor_low k a b h =
    ap (λ t. bit_xor t b) (div-add-mod_two_pow k a)
    ∙ ap (λ t. bit_xor (a / 2 ^ k * 2 ^ k + a % 2 ^ k) t) b_eq
    ∙ xor-fields k (a / 2 ^ k) 0 (a % 2 ^ k) b (omega (arith, one-le-pow k 2)) h
    ∙ ap (λ t. t * 2 ^ k + bit_xor (a % 2 ^ k) b) (xor-zero (a / 2 ^ k))
  where
    b_eq : b ≡ 0 * 2 ^ k + b
    b_eq = omega arith

pub xor-mod : (k a b : ℕ) → bit_xor a b % 2 ^ k ≡ bit_xor (a % 2 ^ k) (b % 2 ^ k)
xor-mod k a b =
    ap (λ t. t % 2 ^ k) split
    ∙ mul-add-mod_self_right (bit_xor (a / 2 ^ k) (b / 2 ^ k)) (2 ^ k) _
    ∙ mod-eq_of_lt (xor-lt k (a % 2 ^ k) (b % 2 ^ k) low_a low_b)
  where
    low_a : a % 2 ^ k < 2 ^ k
    low_a = omega (arith, one-le-pow k 2)

    low_b : b % 2 ^ k < 2 ^ k
    low_b = omega (arith, one-le-pow k 2)

    split : bit_xor a b ≡ bit_xor (a / 2 ^ k) (b / 2 ^ k) * 2 ^ k + bit_xor (a % 2 ^ k) (b % 2 ^ k)
    split =
        ap₂ bit_xor (div-add-mod_two_pow k a) (div-add-mod_two_pow k b)
        ∙ xor-fields k (a / 2 ^ k) (b / 2 ^ k) (a % 2 ^ k) (b % 2 ^ k) low_a low_b

pub xor-double : (a b : ℕ) → bit_xor (a * 2) (b * 2) ≡ bit_xor a b * 2
xor-double a b =
    let p : a * 2 / 2 ≡ a = omega arith in
    let q : b * 2 / 2 ≡ b = omega arith in rw (bit_xor_step (a * 2) (b * 2), p, q) (omega arith)

-- Values with no digit place in common add up.
pub xor-disjoint : (k a b : ℕ) → b < 2 ^ k → bit_xor (a * 2 ^ k) b ≡ a * 2 ^ k + b
xor-disjoint k a b h =
    ap₂ bit_xor left right
    ∙ xor-fields k a 0 0 b (omega (arith, one-le-pow k 2)) h
    ∙ ap₂ (λ s t. s * 2 ^ k + t) (xor-zero a) (zero-xor b)
  where
    left : a * 2 ^ k ≡ a * 2 ^ k + 0
    left = omega arith

    right : b ≡ 0 * 2 ^ k + b
    right = omega arith

-- Only the places from `k` up change where the other value has no digit below.
pub xor_high : (k a b : ℕ) → bit_xor a (b * 2 ^ k) ≡ bit_xor (a / 2 ^ k) b * 2 ^ k + a % 2 ^ k
xor_high k a b =
    ap₂ bit_xor (div-add-mod_two_pow k a) right
    ∙ xor-fields k (a / 2 ^ k) b (a % 2 ^ k) 0 (omega (arith, one-le-pow k 2))
        (omega (arith, one-le-pow k 2))
    ∙ ap (λ t. bit_xor (a / 2 ^ k) b * 2 ^ k + t) (xor-zero (a % 2 ^ k))
  where
    right : b * 2 ^ k ≡ b * 2 ^ k + 0
    right = omega arith
