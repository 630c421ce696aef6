-- ===== src/Bch/Faults.antt =====
-- A word for which `BchDecoder::berlekamp_massey` accesses its vectors out of bounds.
use usrp_atsc.Common.{
  ℕ, zero, suc, ◌+◌, ◌-◌, ◌*◌, ◌/◌, ◌≤◌, ◌<◌, ◌≡◌, ◌≢◌, refl, sym, ap, ◌∙◌, arith, ◌==◌, ==_iff,
  ltb, leb, min, if-true, if-false, true, false, Bool-cases, Option-cases, ◌⊎◌, inl, inr, List, [],
  ◌∷◌, length, length-set, length-replicate, get_elem?, replicate, Option, none, some,
}
use usrp_atsc.Common.Maybe.{◌>>=◌, bind-none, bind-fault, bind-next, bind-fails, some-cancel}
use usrp_atsc.Bch.Bits.{copy_first}
use usrp_atsc.Bch.Field.{GfTables, gf_div}
use usrp_atsc.Bch.State.{BchDecoder}
use usrp_atsc.Bch.Syndromes.{syndrome_loop, compute_syndromes, all_zero}
use usrp_atsc.Bch.Massey.{
  Massey, start_massey, discrepancy_loop, subtract_loop, change_sigma, massey_round, massey_loop,
  berlekamp_massey,
}
use usrp_atsc.Bch.Decode.{locate_errors, decode_word, bch_decode}
use usrp_atsc.Bch.Syndromes.Zeros.{all_zero_loop-zeros, syndromes_loop-Stores}

get_elem?-out {ℓ} : {A : Type ℓ} (xs : List A) (i : ℕ) → length xs ≤ i → get_elem? xs i ≡ none
get_elem?-out [] i h = refl
get_elem?-out (x ∷ xs) zero h = absurd (omega arith)
get_elem?-out (x ∷ xs) (suc i) h = get_elem?-out xs i (omega arith)

-- The discrepancy reads every coefficient up to the degree.
discrepancy_loop-out :
    (g : GfTables) (syndromes sigma : List ℕ) (n rounds i delta : ℕ)
    → i ≤ length sigma
    → length sigma < i + rounds
    → discrepancy_loop g syndromes sigma n rounds i delta ≡ none
unfolding discrepancy_loop
discrepancy_loop-out g syndromes sigma n zero i delta h h' = absurd (omega arith)
discrepancy_loop-out g syndromes sigma n (suc k) i delta h h' =
    elim (Bool-cases (i == length sigma)) [
      | inl end ↦ bind-fault (get_elem? sigma i) _ (get_elem?-out sigma i (ground (arith, end)))
      | inr before ↦ bind-none (get_elem? sigma i) _ (λ s. bind-none _ _ (λ next.
          discrepancy_loop-out g syndromes sigma n k (i + 1) next (ground (arith, h, before))
            (omega arith)))
    ]

copy_first-out :
    (k : ℕ) (from to : List ℕ)
    → ltb (length from) (k + 1) ≡ true
    → copy_first (k + 1) from to ≡ none
unfolding copy_first
copy_first-out k from to h = if-true _ _ h

-- A shift beyond the vector changes nothing.
subtract_loop-beyond :
    (g : GfTables) (coeff k rounds : ℕ) (sigma_prev sigma : List ℕ)
    → rounds ≡ 0
    → subtract_loop g coeff k sigma_prev rounds 0 sigma ≡ some sigma
unfolding subtract_loop
subtract_loop-beyond g coeff k zero sigma_prev sigma h = refl
subtract_loop-beyond g coeff k (suc n) sigma_prev sigma h = absurd (omega (arith, h))

module _ (g : GfTables) (t : ℕ) (syndromes : List ℕ) where
  -- Nothing has changed but the shift, and the degree has grown to `k`.
  abbrev idle : ℕ → Massey
  idle n = record (start_massey t) { m = n }

  abbrev grown : ℕ → ℕ → Massey
  grown k v = record {
    sigma = (start_massey t).sigma;
    sigma_prev = (start_massey t).sigma;
    num_errors = k;
    m = 1;
    delta_prev = v;
  }

  abbrev finish : List ℕ → Massey → Option (ℕ × List ℕ)
  finish locator b = do
    copied ← copy_first (b.num_errors + 1) b.sigma locator
    some (b.num_errors, copied)

  sigma-length : length (start_massey t).sigma ≡ t + 2
  unfolding start_massey
  sigma-length = length-set (replicate (t + 2) 0) 0 1 ∙ length-replicate (t + 2) 0

  idle_round :
      (n : ℕ)
      → get_elem? syndromes n ≡ some 0
      → massey_round g t syndromes n (idle n) ≡ some (idle (n + 1))
  unfolding massey_round discrepancy_loop start_massey
  idle_round n e = bind-next (get_elem? syndromes n) _ 0 _ e refl

  out : (k : ℕ) → t + 2 ≤ k → ltb (length (start_massey t).sigma) (k + 1) ≡ true
  out k h = ground (arith, sigma-length, h)

  grown_out :
      (k v n rounds : ℕ) (locator : List ℕ)
      → t + 2 ≤ k
      → (massey_loop g t syndromes rounds n (grown k v) >>= finish locator) ≡ none
  unfolding massey_loop massey_round
  grown_out k v n zero locator h =
      bind-fault (copy_first (k + 1) (start_massey t).sigma locator) _
        (copy_first-out k (start_massey t).sigma locator (out k h))
  grown_out k v n (suc rounds) locator h =
      bind-fault (massey_loop g t syndromes (suc rounds) n (grown k v)) (finish locator) (
        bind-fault (massey_round g t syndromes n (grown k v)) _ (
          bind-none (get_elem? syndromes n) _ (λ first.
            bind-fault (discrepancy_loop g syndromes (start_massey t).sigma n k 1 first) _ (
              discrepancy_loop-out g syndromes (start_massey t).sigma n k 1 first
                (omega (arith, sigma-length)) (omega (arith, sigma-length, h))))))

  change_idle :
      (k v : ℕ)
      → t + 2 ≤ k
      → (change_sigma g t k v (idle k) ≡ none) ⊎ (change_sigma g t k v (idle k) ≡ some (grown k v))
  unfolding change_sigma start_massey
  change_idle k v h = elim (Option-cases (gf_div g v 1)) [
    | inl e ↦ inl (bind-fault (gf_div g v 1) _ e)
    | inr (coeff, e) ↦ inr (
        bind-next (gf_div g v 1) _ coeff _ e (
          bind-next
            (subtract_loop g coeff k (start_massey t).sigma (t + 2 - k) 0 (start_massey t).sigma) _
            (start_massey t).sigma _
            (subtract_loop-beyond g coeff k (t + 2 - k) _ _ (omega (arith, h)))
            (ap some (if-true _ _ first_change ∙ ap (λ e. grown e v) same_degree))))
  ]
    where
      first_change : leb (2 * 0) (k - 1) ≡ true
      first_change = ground arith

      same_degree : k - 0 ≡ k
      same_degree = omega arith

  round_change :
      (n v : ℕ)
      → get_elem? syndromes n ≡ some v
      → v ≢ 0
      → massey_round g t syndromes n (idle n) ≡ change_sigma g t n v (idle n)
  unfolding massey_round discrepancy_loop start_massey
  round_change n v e v0 =
      let some_delta : (v == 0) ≡ false = ground (arith, v0) in
      bind-next (get_elem? syndromes n) _ v _ e (if-false _ _ some_delta)

  massey_loop-out :
      (k v rounds n : ℕ) (locator : List ℕ)
      → ((j : ℕ) → n ≤ j → j < k → get_elem? syndromes j ≡ some 0)
      → get_elem? syndromes k ≡ some v
      → v ≢ 0
      → t + 2 ≤ k
      → n ≤ k
      → k < n + rounds
      → (massey_loop g t syndromes rounds n (idle n) >>= finish locator) ≡ none
  unfolding massey_loop
  massey_loop-out k v zero n locator zeros e v0 h h' h'' = absurd (omega arith)
  massey_loop-out k v (suc rounds) n locator zeros e v0 h h' h'' = elim (Bool-cases (n == k)) [
    | inl here ↦
        let q : n ≡ k = (==_iff n k).0 here in
        let round = round_change n v (ap (get_elem? syndromes) q ∙ e) v0 in
        elim (change_idle n v (omega (arith, q, h))) [
          | inl fault ↦
              bind-fault (massey_loop g t syndromes (suc rounds) n (idle n)) (finish locator)
                (bind-fault (massey_round g t syndromes n (idle n)) _ (round ∙ fault))
          | inr change ↦
              ap (λ o. (o >>= massey_loop g t syndromes rounds (n + 1)) >>= finish locator)
                (round ∙ change)
              ∙ grown_out n v (n + 1) rounds locator (omega (arith, q, h))
        ]
    | inr before ↦
        ap (λ o. (o >>= massey_loop g t syndromes rounds (n + 1)) >>= finish locator)
          (idle_round n (zeros n (omega arith) (ground (arith, h', before))))
        ∙ massey_loop-out k v rounds (n + 1) locator (λ j q. zeros j (omega arith)) e v0 h
            (ground (arith, h', before)) (omega arith)
  ]

-- With zeros before an entry that is not 0 and stands at `t + 2` or later.
berlekamp_massey-out :
    (g : GfTables) (t : ℕ) (syndromes locator : List ℕ) (k v : ℕ)
    → ((j : ℕ) → 1 ≤ j → j < k → get_elem? syndromes j ≡ some 0)
    → get_elem? syndromes k ≡ some v
    → v ≢ 0
    → t + 2 ≤ k
    → k ≤ 2 * t
    → berlekamp_massey g t syndromes locator ≡ none
unfolding berlekamp_massey start_massey
berlekamp_massey-out g t syndromes locator k v zeros e v0 h h' =
    massey_loop-out g t syndromes k v (2 * t) 1 locator zeros e v0 h (omega (arith, h))
      (omega (arith, h'))

-- Where the first syndrome of the received bits that is not 0 is the one of `k`, with t + 2 ≤ k ≤ 2t, `decode`
-- reads or writes out of bounds, before it tests the number of errors.
pub bch_decode-out_of_bounds :
    (d : BchDecoder) (bits start : List ℕ) (num_bits k v : ℕ)
    → 0 < num_bits
    → num_bits ≤ d.config.codeword_length
    → copy_first ((num_bits + 7) / 8) bits d.working_bits ≡ some start
    → ((j : ℕ) → 1 ≤ j → j < k → syndrome_loop d.tables start j num_bits 0 0 ≡ some 0)
    → syndrome_loop d.tables start k num_bits 0 0 ≡ some v
    → v ≢ 0
    → d.config.t + 2 ≤ k
    → k ≤ 2 * d.config.t
    → bch_decode d (some bits) num_bits ≡ none
unfolding bch_decode decode_word compute_syndromes all_zero locate_errors
bch_decode-out_of_bounds d bits start num_bits k v positive fits copied zeros e v0 h h' =
    let some_bits : (num_bits == 0) ≡ false = ground (arith, positive) in
    let limit : min num_bits d.config.codeword_length ≡ num_bits = omega (arith, fits) in
    if-false _ _ some_bits
    ∙ ap (decode_word d bits) limit
    ∙ bind-next (copy_first ((num_bits + 7) / 8) bits d.working_bits) _ start _ copied (
        bind-fails (compute_syndromes d.tables d.config.t start num_bits d.syndromes) _
          (λ syndromes e1.
            let (_, stored) =
              syndromes_loop-Stores d.tables start num_bits (2 * d.config.t) 1 d.syndromes syndromes
                e1 in
            let at_k = stored k (omega (arith, h)) (omega (arith, h')) ∙ e in
            bind-fails (all_zero d.config.t syndromes) _ (λ valid e2. elim (Bool-cases valid) [
              | inl all ↦ absurd (
                  v0 (
                    some-cancel (
                      sym at_k
                      ∙ all_zero_loop-zeros (2 * d.config.t) 1 syndromes (e2 ∙ ap some all) k
                          (omega (arith, h)) (omega (arith, h')))))
              | inr errors ↦
                  if-false {b = valid} _ _ errors
                  ∙ bind-fault (berlekamp_massey d.tables d.config.t syndromes d.error_locator) _ (
                      berlekamp_massey-out d.tables d.config.t syndromes d.error_locator k v
                        (λ j q q'. stored j q (omega (arith, q', h')) ∙ zeros j q q') at_k v0 h h')
            ])))
