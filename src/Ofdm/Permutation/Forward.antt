-- ===== src/Ofdm/Permutation/Forward.antt =====
-- The forward table in closed form: the reversal of a place where it is in range, else the place.
use usrp_atsc.Common.{
  ℕ, zero, suc, ◌+◌, ◌^◌, ◌≤◌, ◌<◌, ◌≡◌, refl, sym, ap, ◌∙◌, arith, ◌==◌, ==_iff, ltb, lt→ltb,
  ltb→lt, if◌then◌else◌, if-true, if-false, true, ◌&&◌, Bool-cases, inl, inr, List, [], ◌∷◌, length,
  get_or, some,
}
use mathlib.Core.Path.{subst}
use usrp_atsc.Ofdm.Permutation.{
  next_power_of_two, bits_for, bit_reverse, reversed_table, valid_pairs, Match, match_pairs,
  no_match, unused_places, fill_unused, matched_table, forward_table,
}
use usrp_atsc.Ofdm.Permutation.Power.{Padded, Padded-suc}
use usrp_atsc.Ofdm.Permutation.Matched.{bit_reverse-lt, bit_reverse-twice, Matched}
use usrp_atsc.Ofdm.Permutation.Matching.{Matched-start}
use usrp_atsc.Ofdm.Permutation.Fill.{Filled, fill, list-ext}

-- Where the cell of a place goes.
abbrev pub place : ℕ → ℕ → ℕ → ℕ
place n bits i = if ltb (bit_reverse i bits) n then bit_reverse i bits else i

-- A table that sends every place where `place` says.
pub record IsForward (n bits : ℕ) (table : List ℕ) : Type 0 where
  pub size : length table ≡ n
  pub at : (i : ℕ) → i < n → get_or table i 0 ≡ place n bits i

module _ (n bits : ℕ) (few : bits ≤ 64) (fits : n ≤ 2 ^ bits) where
  same_used : (st : Match) → Matched n bits (2 ^ bits) st → st.src_used ≡ st.dst_used
  same_used st m = list-ext true st.src_used st.dst_used (m.src_length ∙ sym m.dst_length) (λ i low.
      m.src i (omega (arith, low, m.src_length))
      ∙ ap (λ b. b && ltb (bit_reverse i bits) n)
          (lt→ltb i (2 ^ bits) (omega (arith, low, m.src_length, fits))
            ∙ sym (lt→ltb (bit_reverse i bits) (2 ^ bits) (bit_reverse-lt bits i few)))
      ∙ sym (m.dst i (omega (arith, low, m.src_length))))

  Filled-place :
      (st : Match)
      → Matched n bits (2 ^ bits) st
      → (f : Filled st.fwd_perm 0 st.src_used) → (i : ℕ) → i < n
      → get_or f.table i 0 ≡ place n bits i
  Filled-place st m f i low =
      let used : get_or st.src_used i true ≡ ltb (bit_reverse i bits) n =
        m.src i low
        ∙ ap (λ b. b && ltb (bit_reverse i bits) n)
            (lt→ltb i (2 ^ bits) (omega (arith, low, fits))) in
      let filled : get_or f.table i 0
          ≡ (if get_or st.src_used i true then get_or st.fwd_perm i 0 else i) =
        subst
          (λ k.
            get_or f.table k 0 ≡ (if get_or st.src_used i true then get_or st.fwd_perm k 0 else k))
          (omega arith) (f.at i (omega (arith, low, m.src_length))) in
      filled
      ∙ ap (λ b. if b then get_or st.fwd_perm i 0 else i) used
      ∙ elim (Bool-cases (ltb (bit_reverse i bits) n)) [
        | inl within ↦
            ap (λ t. if ltb (bit_reverse i bits) n then t else i)
              (m.fwd i low (omega (arith, low, fits)) (ltb→lt (bit_reverse i bits) n within))
        | inr out ↦
            if-false (get_or st.fwd_perm i 0) i out ∙ sym (if-false (bit_reverse i bits) i out)
      ]

  IsForward-matched : (t : List ℕ) × (matched_table n bits (2 ^ bits) ≡ some t) × IsForward n bits t
  unfolding matched_table
  IsForward-matched =
      let st = match_pairs (no_match n) (valid_pairs n bits (2 ^ bits) 0) in
      let m = Matched-start n bits few fits (2 ^ bits) in
      let f = fill st.fwd_perm 0 st.src_used (omega (arith, m.fwd_length, m.src_length)) in
      (
        f.table,
        ap (λ u. fill_unused st.fwd_perm 0 st.src_used (unused_places 0 u)) (sym (same_used st m))
            ∙ f.result,
        record { size = f.size ∙ m.fwd_length; at = Filled-place st m f },
      )

  reversed_size : (rounds i : ℕ) → length (reversed_table bits rounds i) ≡ rounds
  unfolding reversed_table
  reversed_size zero i = refl
  reversed_size (suc rounds) i = ap suc (reversed_size rounds (i + 1))

  reversed_at :
      (rounds i d : ℕ)
      → d < rounds
      → get_or (reversed_table bits rounds i) d 0 ≡ bit_reverse (i + d) bits
  unfolding reversed_table
  reversed_at zero i d h = absurd (omega (arith, h))
  reversed_at (suc rounds) i zero h = ap (λ t. bit_reverse t bits) (omega arith)
  reversed_at (suc rounds) i (suc d) h =
      reversed_at rounds (i + 1) d (omega (arith, h)) ∙ ap (λ t. bit_reverse t bits) (omega arith)

  place-in_range : (i : ℕ) → bit_reverse i bits < n → place n bits i ≡ bit_reverse i bits
  place-in_range i h = if-true (bit_reverse i bits) i (lt→ltb (bit_reverse i bits) n h)

  pub place-lt : (i : ℕ) → i < n → place n bits i < n
  place-lt i h = ground (arith, h)

  pub place-twice : (i : ℕ) → i < n → place n bits (place n bits i) ≡ i
  place-twice i h = elim (Bool-cases (ltb (bit_reverse i bits) n)) [
    | inl low ↦
        let back = bit_reverse-twice bits i few (omega (arith, h, fits)) in
        ap (place n bits) (if-true (bit_reverse i bits) i low)
        ∙ place-in_range (bit_reverse i bits) (omega (arith, back, h))
        ∙ back
    | inr high ↦
        ap (place n bits) (if-false (bit_reverse i bits) i high)
        ∙ if-false (bit_reverse i bits) i high
  ]

  IsForward-reversed : n ≡ 2 ^ bits → IsForward n bits (reversed_table bits n 0)
  IsForward-reversed e = record {
    size = reversed_size n 0;
    at = λ i low.
        reversed_at n 0 i low
        ∙ ap (λ t. bit_reverse t bits) (omega arith)
        ∙ sym (place-in_range i (omega (arith, bit_reverse-lt bits i few, e)));
  }

bits_for-fits : (m : ℕ) → Padded (suc m) → suc m ≤ 2 ^ bits_for (suc m)
unfolding bits_for next_power_of_two
bits_for-fits m p = elim p.power [
  | inl e ↦ subst (λ k. k ≤ 2 ^ bits_for k) (sym e) (omega arith)
  | inr e ↦ omega (arith, e, p.covers)
]

IsForward-one : (t : List ℕ) × (forward_table 1 ≡ some t) × IsForward 1 (bits_for 1) t
unfolding forward_table next_power_of_two bits_for reversed_table bit_reverse
IsForward-one = (0 ∷ [], refl, record { size = refl; at = at_one })
  where
    at_one : (i : ℕ) → i < 1 → get_or (0 ∷ []) i 0 ≡ place 1 1 i
    at_one zero h = refl
    at_one (suc i) h = absurd (omega (arith, h))

IsForward-larger :
    (m : ℕ)
    → Padded (suc m)
    → next_power_of_two (suc m) ≡ 2 ^ bits_for (suc m)
    → (t : List ℕ) × (forward_table (suc m) ≡ some t) × IsForward (suc m) (bits_for (suc m)) t
unfolding forward_table
IsForward-larger m p e =
    let n = suc m in
    let bits = bits_for n in
    let whole = reversed_table bits n 0 in
    elim (Bool-cases (n == next_power_of_two n)) [
      | inl same ↦ (
        whole,
        if-true (some whole) (matched_table n bits (next_power_of_two n)) same,
        IsForward-reversed n bits p.few (bits_for-fits m p)
            ((==_iff n (next_power_of_two n)).0 same ∙ e),
      )
      | inr other ↦
          let (t, found, good) = IsForward-matched n bits p.few (bits_for-fits m p) in
          (
            t,
            if-false (some whole) (matched_table n bits (next_power_of_two n)) other
                ∙ ap (matched_table n bits) e
                ∙ found,
            good,
          )
    ]

pub forward_table-IsForward :
    (m : ℕ)
    → m < 2 ^ 63
    → (t : List ℕ) × (forward_table (suc m) ≡ some t) × IsForward (suc m) (bits_for (suc m)) t
forward_table-IsForward m h =
    let p = Padded-suc m h in
    elim p.power [
      | inl e ↦
          subst (λ k. (t : List ℕ) × (forward_table k ≡ some t) × IsForward k (bits_for k) t)
            (sym e) IsForward-one
      | inr e ↦ IsForward-larger m p e
    ]

pub place-lt_size : (m i : ℕ) → m < 2 ^ 63 → i < suc m → place (suc m) (bits_for (suc m)) i < suc m
place-lt_size m i h low =
    let p = Padded-suc m h in place-lt (suc m) (bits_for (suc m)) p.few (bits_for-fits m p) i low

pub place-undone :
    (m i : ℕ)
    → m < 2 ^ 63
    → i < suc m
    → place (suc m) (bits_for (suc m)) (place (suc m) (bits_for (suc m)) i) ≡ i
place-undone m i h low =
    let p = Padded-suc m h in place-twice (suc m) (bits_for (suc m)) p.few (bits_for-fits m p) i low
