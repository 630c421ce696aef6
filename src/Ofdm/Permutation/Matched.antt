-- ===== src/Ofdm/Permutation/Matched.antt =====
-- What the loop over the valid pairs has paired, in terms of `bit_reverse`.
use usrp_atsc.Common.{
  ℕ, zero, suc, ◌+◌, ◌^◌, ◌≤◌, ◌<◌, ◌≡◌, ◌≢◌, refl, sym, ap, ◌∙◌, arith, ltb, Bool, true, ◌&&◌,
  length, get_or, replicate,
}
use mathlib.Core.Path.{ap₂, subst}
use usrp_atsc.Ofdm.Permutation.{bit_reverse, Match}
use usrp_atsc.Ofdm.Permutation.Reverse.{reversal, reversal-lt, reversal-twice, bit_reverse-reversal}

pub bit_reverse-lt : (k x : ℕ) → k ≤ 64 → bit_reverse x k < 2 ^ k
bit_reverse-lt k x h = subst (λ t. t < 2 ^ k) (sym (bit_reverse-reversal k x h)) (reversal-lt k x)

pub bit_reverse-twice : (k x : ℕ) → k ≤ 64 → x < 2 ^ k → bit_reverse (bit_reverse x k) k ≡ x
bit_reverse-twice k x h below =
    bit_reverse-reversal k (bit_reverse x k) h
    ∙ ap (reversal k) (bit_reverse-reversal k x h)
    ∙ reversal-twice k x below

pub get_or-replicate {ℓ} : {A : Type ℓ} (n i : ℕ) (a d : A) → i < n → get_or (replicate n a) i d ≡ a
get_or-replicate zero i a d h = absurd (omega arith)
get_or-replicate (suc n) zero a d h = refl
get_or-replicate (suc n) (suc i) a d h = get_or-replicate n i a d (omega arith)

-- What has been matched when the pairs of the places below `k` are done.
pub record Matched (n bits k : ℕ) (st : Match) : Type 0 where
  pub fwd_length : length st.fwd_perm ≡ n
  pub src_length : length st.src_used ≡ n
  pub dst_length : length st.dst_used ≡ n
  pub src : (i : ℕ) → i < n → get_or st.src_used i true ≡ (ltb i k && ltb (bit_reverse i bits) n)
  pub dst :
      (j : ℕ)
      → j < n
      → get_or st.dst_used j true ≡ (ltb (bit_reverse j bits) k && ltb (bit_reverse j bits) n)
  pub fwd :
      (i : ℕ) → i < n → i < k → bit_reverse i bits < n → get_or st.fwd_perm i 0 ≡ bit_reverse i bits

pub ltb-next : (i k : ℕ) → i ≢ k → ltb i (k + 1) ≡ ltb i k
ltb-next i k h = ground arith

pub both_true : (a b : Bool) → a ≡ true → b ≡ true → (a && b) ≡ true
both_true a b h h' = ap₂ (λ x y. x && y) h h'

pub Matched-move :
    {n bits k k' : ℕ} {st st' : Match}
    → k ≡ k'
    → st ≡ st'
    → Matched n bits k' st'
    → Matched n bits k st
Matched-move {n} {bits} {k} {k'} {st} {st'} e e' m =
    subst (λ t. Matched n bits t st) (sym e) (subst (λ t. Matched n bits k' t) (sym e') m)
