-- ===== src/Ofdm/Permutation/Matching.antt =====
-- The loop over the valid pairs pairs every place in range with its reversal, where that is in range.
use usrp_atsc.Common.{
  ℕ, zero, suc, ◌+◌, ◌^◌, ◌≤◌, ◌<◌, ◌≡◌, ◌≢◌, sym, ap, ◌∙◌, arith, ◌==◌, ==_iff, ltb, lt→ltb,
  if-true, if-false, true, false, not, ◌&&◌, Bool-cases, inl, inr, ◌∷◌, get_or, set, length-set,
  length-replicate, get_or-set_self, get_or-set_ne,
}
use mathlib.Core.Path.{subst}
use usrp_atsc.Ofdm.Permutation.{bit_reverse, valid_pairs, Match, match_pair, match_pairs, no_match}
use usrp_atsc.Ofdm.Permutation.Matched.{
  bit_reverse-twice, get_or-replicate, Matched, ltb-next, both_true, Matched-move,
}

module _ (n bits : ℕ) (few : bits ≤ 64) (fits : n ≤ 2 ^ bits) where
  Matched-none : Matched n bits 0 (no_match n)
  Matched-none = record {
    fwd_length = length-replicate n 0;
    src_length = length-replicate n false;
    dst_length = length-replicate n false;
    src = λ i h. get_or-replicate n i false true h ∙ ground arith;
    dst = λ j h. get_or-replicate n j false true h ∙ ground arith;
    fwd = λ i h low h'. absurd (omega (arith, low));
  }

  back : (i : ℕ) → i < n → bit_reverse (bit_reverse i bits) bits ≡ i
  back i h = bit_reverse-twice bits i few (omega (arith, h, fits))

  -- A place whose pair is not in range.
  Matched-skip :
      (k : ℕ) (st : Match)
      → (ltb k n && ltb (bit_reverse k bits) n) ≡ false
      → Matched n bits k st
      → Matched n bits (k + 1) st
  Matched-skip k st out m = record {
    fwd_length = m.fwd_length;
    src_length = m.src_length;
    dst_length = m.dst_length;
    src = λ i h. m.src i h ∙ elim (Bool-cases (i == k)) [
      | inl same ↦
          let e = (==_iff i k).0 same in
          let r = ap (λ t. bit_reverse t bits) e in ground (arith, out, e, r, h)
      | inr other ↦ ground (arith, other)
    ];
    dst = λ j h. m.dst j h ∙ elim (Bool-cases (bit_reverse j bits == k)) [
      | inl same ↦
          let e = (==_iff (bit_reverse j bits) k).0 same in
          let r = ap (λ t. bit_reverse t bits) (sym e) ∙ back j h in ground (arith, out, e, r, h)
      | inr other ↦ ground (arith, other)
    ];
    fwd = λ i h low in_range. elim (Bool-cases (i == k)) [
      | inl same ↦
          let e = (==_iff i k).0 same in
          let r = ap (λ t. bit_reverse t bits) e in absurd (ground (arith, out, e, r, h, in_range))
      | inr other ↦ m.fwd i h (ground (arith, low, other)) in_range
    ];
  }

  module _ (k : ℕ) (st : Match) (m : Matched n bits k st) (low : k < n)
      (in_range : bit_reverse k bits < n) where
    taken : Match
    taken = record {
      fwd_perm = set st.fwd_perm k (bit_reverse k bits);
      src_used = set st.src_used k true;
      dst_used = set st.dst_used (bit_reverse k bits) true;
    }

    src_taken :
        (i : ℕ)
        → i < n
        → get_or (set st.src_used k true) i true ≡ (ltb i (k + 1) && ltb (bit_reverse i bits) n)
    src_taken i h = elim (Bool-cases (i == k)) [
      | inl same ↦
          let e = (==_iff i k).0 same in
          ap (λ t. get_or (set st.src_used k true) t true) e
          ∙ get_or-set_self st.src_used k true true (omega (arith, low, m.src_length))
          ∙ sym (
              both_true (ltb i (k + 1)) (ltb (bit_reverse i bits) n)
                (lt→ltb i (k + 1) (omega (arith, e)))
                (ap (λ t. ltb (bit_reverse t bits) n) e ∙ lt→ltb (bit_reverse k bits) n in_range))
      | inr other ↦
          let ne : i ≢ k = ground (arith, other) in
          get_or-set_ne st.src_used k i true true (λ q. ne (sym q))
          ∙ m.src i h
          ∙ ap (λ b. b && ltb (bit_reverse i bits) n) (sym (ltb-next i k ne))
    ]

    dst_taken :
        (j : ℕ)
        → j < n
        → get_or (set st.dst_used (bit_reverse k bits) true) j true
          ≡ (ltb (bit_reverse j bits) (k + 1) && ltb (bit_reverse j bits) n)
    dst_taken j h = elim (Bool-cases (j == bit_reverse k bits)) [
      | inl same ↦
          let e = (==_iff j (bit_reverse k bits)).0 same in
          let e' : bit_reverse j bits ≡ k = ap (λ t. bit_reverse t bits) e ∙ back k low in
          ap (λ t. get_or (set st.dst_used (bit_reverse k bits) true) t true) e
          ∙ get_or-set_self st.dst_used (bit_reverse k bits) true true
              (omega (arith, in_range, m.dst_length))
          ∙ sym (
              both_true (ltb (bit_reverse j bits) (k + 1)) (ltb (bit_reverse j bits) n)
                (lt→ltb (bit_reverse j bits) (k + 1) (omega (arith, e')))
                (lt→ltb (bit_reverse j bits) n (omega (arith, e', low))))
      | inr other ↦
          let ne : j ≢ bit_reverse k bits = ground (arith, other) in
          let ne' : bit_reverse j bits ≢ k =
            λ q. ne (sym (back j h) ∙ ap (λ t. bit_reverse t bits) q) in
          get_or-set_ne st.dst_used (bit_reverse k bits) j true true (λ q. ne (sym q))
          ∙ m.dst j h
          ∙ ap (λ b. b && ltb (bit_reverse j bits) n) (sym (ltb-next (bit_reverse j bits) k ne'))
    ]

    fwd_taken :
        (i : ℕ)
        → i < n
        → i < k + 1
        → bit_reverse i bits < n
        → get_or (set st.fwd_perm k (bit_reverse k bits)) i 0 ≡ bit_reverse i bits
    fwd_taken i h below h' = elim (Bool-cases (i == k)) [
      | inl same ↦
          let e = (==_iff i k).0 same in
          ap (λ t. get_or (set st.fwd_perm k (bit_reverse k bits)) t 0) e
          ∙ get_or-set_self st.fwd_perm k (bit_reverse k bits) 0 (omega (arith, low, m.fwd_length))
          ∙ ap (λ t. bit_reverse t bits) (sym e)
      | inr other ↦
          let ne : i ≢ k = ground (arith, other) in
          get_or-set_ne st.fwd_perm k i (bit_reverse k bits) 0 (λ q. ne (sym q))
          ∙ m.fwd i h (ground (arith, below, other)) h'
    ]

    Matched-taken : Matched n bits (k + 1) taken
    unfolding taken
    Matched-taken = record {
      fwd_length = length-set st.fwd_perm k (bit_reverse k bits) ∙ m.fwd_length;
      src_length = length-set st.src_used k true ∙ m.src_length;
      dst_length = length-set st.dst_used (bit_reverse k bits) true ∙ m.dst_length;
      src = src_taken;
      dst = dst_taken;
      fwd = fwd_taken;
    }

    match_pair-taken : match_pair st k (bit_reverse k bits) ≡ taken
    unfolding match_pair taken
    match_pair-taken = if-true _ st (
        both_true (not (get_or st.src_used k true))
          (not (get_or st.dst_used (bit_reverse k bits) true)) (ap not (m.src k low ∙ src_free))
          (ap not (m.dst (bit_reverse k bits) in_range ∙ dst_free)))
      where
        again : bit_reverse (bit_reverse k bits) bits ≡ k
        again = back k low

        src_free : (ltb k k && ltb (bit_reverse k bits) n) ≡ false
        src_free = ground arith

        dst_free :
            (ltb (bit_reverse (bit_reverse k bits) bits) k
              && ltb (bit_reverse (bit_reverse k bits) bits) n)
            ≡ false
        dst_free = ground (arith, again)

  pub Matched-all :
      (rounds k : ℕ) (st : Match)
      → Matched n bits k st
      → Matched n bits (k + rounds) (match_pairs st (valid_pairs n bits rounds k))
  unfolding match_pairs valid_pairs
  Matched-all zero k st m = subst (λ t. Matched n bits t st) (omega arith) m
  Matched-all (suc rounds) k st m = elim (Bool-cases (ltb k n && ltb (bit_reverse k bits) n)) [
    | inl both ↦
        let rest = valid_pairs n bits rounds (k + 1) in
        let low : k < n = ground (arith, both) in
        let in_range : bit_reverse k bits < n = ground (arith, both) in
        Matched-move (omega arith)
          (ap (match_pairs st) (if-true ((k, bit_reverse k bits) ∷ rest) rest both)
            ∙ ap (λ t. match_pairs t rest) (match_pair-taken k st m low in_range))
          (Matched-all rounds (k + 1) (taken k st m low in_range)
            (Matched-taken k st m low in_range))
    | inr out ↦
        let rest = valid_pairs n bits rounds (k + 1) in
        Matched-move (omega arith)
          (ap (match_pairs st) (if-false ((k, bit_reverse k bits) ∷ rest) rest out))
          (Matched-all rounds (k + 1) st (Matched-skip k st out m))
  ]

  pub Matched-start :
      (rounds : ℕ) → Matched n bits rounds (match_pairs (no_match n) (valid_pairs n bits rounds 0))
  Matched-start rounds =
      subst (λ t. Matched n bits t (match_pairs (no_match n) (valid_pairs n bits rounds 0)))
        (omega arith) (Matched-all rounds 0 (no_match n) Matched-none)
