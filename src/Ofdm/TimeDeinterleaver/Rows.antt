-- ===== src/Ofdm/TimeDeinterleaver/Rows.antt =====
-- The row of a cell: the mask takes the remainder that the other branch takes.
use usrp_atsc.Common.{
  ℕ, zero, suc, ◌+◌, ◌-◌, ◌/◌, ◌%◌, ◌^◌, ◌≤◌, ◌<◌, ◌≡◌, refl, sym, ap, ◌∙◌, arith, ◌==◌, ==_iff,
  ltb, if◌then◌else◌, if-true, Bool, true, false, not, ◌||◌, Bool-cases, inl, inr,
}
use Prim.Native.Nat.{bit_and}
use native.Mathlib.Decide.{dec_le}
use usrp_atsc.Common.And.{and-mask}
use usrp_atsc.Ofdm.TimeDeinterleaver.{is_power_of_two, TimeDeinterleaver, row_of}

-- A test of `k` numbers from `x` on.
covers : (ℕ → Bool) → ℕ → ℕ → Bool
covers test x zero = true
covers test x (suc k) = if test x then covers test (x + 1) k else false

covers-at :
    (test : ℕ → Bool) (k x i : ℕ) → covers test x k ≡ true → x ≤ i → i < x + k → test i ≡ true
unfolding covers
covers-at test zero x i h low high = absurd (omega arith)
covers-at test (suc k) x i h low high = elim (Bool-cases (test x)) [
  | inl passed ↦
      let more = sym (if-true (covers test (x + 1) k) false passed) ∙ h in
      elim (dec_le (x + 1) i) [
        | yes later ↦ covers-at test k (x + 1) i more later (omega arith)
        | no here ↦ ap test (omega arith) ∙ passed
      ]
  | inr failed ↦ absurd (ground (arith, failed, h))
]

exponent : ℕ → ℕ → ℕ
exponent zero n = 0
exponent (suc rounds) n = if ltb n 2 then 0 else suc (exponent rounds (n / 2))

abbrev has_exponent : ℕ → Bool
has_exponent n = not (is_power_of_two n) || (2 ^ exponent 9 n == n)

powers : covers has_exponent 0 257 ≡ true
unfolding covers exponent is_power_of_two
powers = refl

power_exponent : (n : ℕ) → n < 257 → is_power_of_two n ≡ true → 2 ^ exponent 9 n ≡ n
power_exponent n small h = (==_iff (2 ^ exponent 9 n) n).0 (
    ap (λ b. not b || (2 ^ exponent 9 n == n)) (sym h)
    ∙ covers-at has_exponent 257 0 n powers (omega arith) (omega (arith, small)))

-- The mask that `init_delay_lines` sets.
abbrev pub mask_for : ℕ → ℕ
mask_for rows = if is_power_of_two rows then rows - 1 else 0

pub row_of_lem :
    (d : TimeDeinterleaver) (i : ℕ)
    → 2 ≤ d.num_rows
    → d.num_rows < 257
    → d.row_mask ≡ mask_for d.num_rows
    → row_of d i ≡ i % d.num_rows
unfolding row_of
row_of_lem d i two small h = elim (Bool-cases (is_power_of_two d.num_rows)) [
  | inl power ↦
      let e = power_exponent d.num_rows small power in
      let mask = h ∙ ap (λ b. if b then d.num_rows - 1 else 0) power in
      let masked : bit_and i d.row_mask ≡ i % d.num_rows =
        ap (bit_and i) (mask ∙ ap (λ n. n - 1) (sym e))
        ∙ and-mask (exponent 9 d.num_rows) i
        ∙ ap (λ n. i % n) e in
      ground (arith, masked)
  | inr other ↦
      let mask = h ∙ ap (λ b. if b then d.num_rows - 1 else 0) other in ground (arith, mask)
]
