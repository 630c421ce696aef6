-- ===== src/Bch/Syndromes/Zeros.antt =====
-- What the syndromes of a word are that `BchDecoder::decode` finds to be 0.
use usrp_atsc.Common.{
  ℕ, zero, suc, ◌+◌, ◌*◌, ◌≤◌, ◌<◌, ◌≡◌, sym, ap, ◌∙◌, arith, ◌==◌, ==_iff, ltb, set, if-true,
  if-false, true, Bool-cases, inl, inr, List, length, get_elem?, get_elem?-set_self,
  get_elem?-set_ne, some,
}
use mathlib.Core.Path.{subst}
use usrp_atsc.Common.Maybe.{
  some-cancel, AllResults, bind-AllResults, bind-some, none-some, false-true,
}
use usrp_atsc.Bch.Bits.{write}
use usrp_atsc.Bch.Field.{GfTables}
use usrp_atsc.Bch.Syndromes.{
  syndrome_loop, syndromes_loop, compute_syndromes, all_zero_loop, all_zero,
}

write-set :
    (xs : List ℕ) (i v : ℕ) (ys : List ℕ)
    → write xs i v ≡ some ys
    → (i < length xs) × (ys ≡ set xs i v)
unfolding write
write-set xs i v ys e = elim (Bool-cases (ltb i (length xs))) [
  | inl inside ↦ (ground (arith, inside), some-cancel (sym e ∙ if-true _ _ inside))
  | inr out ↦ absurd (none-some (sym (if-false _ _ out) ∙ e))
]

module _ (g : GfTables) (bits : List ℕ) (num_bits : ℕ) where
  -- What is stored from `j` on, and what stays below.
  abbrev Stores : ℕ → ℕ → List ℕ → List ℕ → Type 0
  Stores n j before after =
      ((k : ℕ) → k < j → get_elem? after k ≡ get_elem? before k)
      × ((k : ℕ) → j ≤ k → k < j + n → get_elem? after k ≡ syndrome_loop g bits k num_bits 0 0)

  pub syndromes_loop-Stores :
      (n j : ℕ) (before : List ℕ)
      → AllResults (Stores n j before) (syndromes_loop g bits num_bits n j before)
  unfolding syndromes_loop
  syndromes_loop-Stores zero j before = λ after e.
      (λ k h. ap (λ s. get_elem? s k) (sym (some-cancel e)), λ k h h'. absurd (omega arith))
  syndromes_loop-Stores (suc n) j before =
      bind-AllResults _ (syndrome_loop g bits j num_bits 0 0) _ (λ syndrome e1.
        bind-AllResults _ (write before j syndrome) _ (λ stored e2 after e.
          let (low, high) = syndromes_loop-Stores n (j + 1) stored after e in
          let (inside, q) = write-set before j syndrome stored e2 in
          (
            λ k h.
                low k (omega arith)
                ∙ ap (λ t. get_elem? t k) q
                ∙ get_elem?-set_ne before syndrome (λ same. absurd (omega (arith, same, h))),
            λ k h h'. elim (Bool-cases (j == k)) [
              | inl same ↦
                  let here : j ≡ k = (==_iff j k).0 same in
                  subst (λ i. get_elem? after i ≡ syndrome_loop g bits i num_bits 0 0) here
                    (low j (omega arith)
                      ∙ ap (λ t. get_elem? t j) q
                      ∙ get_elem?-set_self before j syndrome inside
                      ∙ sym e1)
              | inr other ↦ high k (ground (arith, h, other)) (omega arith)
            ],
          )))

-- The test passes where all entries are 0.
pub all_zero_loop-zeros :
    (n j : ℕ) (syndromes : List ℕ)
    → all_zero_loop n j syndromes ≡ some true
    → (k : ℕ) → j ≤ k
    → k < j + n
    → get_elem? syndromes k ≡ some 0
unfolding all_zero_loop
all_zero_loop-zeros zero j syndromes e k h h' = absurd (omega arith)
all_zero_loop-zeros (suc n) j syndromes e k h h' =
    let (s, e1, e2) = bind-some (get_elem? syndromes j) _ true e in
    elim (Bool-cases (s == 0)) [
      | inr some_error ↦ absurd (false-true (some-cancel (sym (if-false _ _ some_error) ∙ e2)))
      | inl fine ↦ elim (Bool-cases (j == k)) [
        | inl same ↦
            let here : j ≡ k = (==_iff j k).0 same in
            subst (λ i. get_elem? syndromes i ≡ some 0) here (e1 ∙ ap some ((==_iff s 0).0 fine))
        | inr other ↦
            all_zero_loop-zeros n (j + 1) syndromes (sym (if-true _ _ fine) ∙ e2) k
              (ground (arith, h, other)) (omega arith)
      ]
    ]

-- All the 2t syndromes of a word are 0.
abbrev pub HasNoSyndrome : GfTables → ℕ → List ℕ → ℕ → Type 0
HasNoSyndrome g t word num_bits =
    (j : ℕ) → 1 ≤ j → j ≤ 2 * t → syndrome_loop g word j num_bits 0 0 ≡ some 0

pub tested-HasNoSyndrome :
    (g : GfTables) (t : ℕ) (word : List ℕ) (num_bits : ℕ) (before after : List ℕ)
    → compute_syndromes g t word num_bits before ≡ some after
    → all_zero t after ≡ some true
    → HasNoSyndrome g t word num_bits
unfolding compute_syndromes all_zero
tested-HasNoSyndrome g t word num_bits before after e zeros j h h' =
    let (_, high) = syndromes_loop-Stores g word num_bits (2 * t) 1 before after e in
    sym (high j h (omega arith)) ∙ all_zero_loop-zeros (2 * t) 1 after zeros j h (omega arith)
