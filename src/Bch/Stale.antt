-- ===== src/Bch/Stale.antt =====
-- What `BchDecoder::berlekamp_massey` leaves of the error locator of an earlier word.
use usrp_atsc.Common.{
  ℕ, zero, suc, ◌+◌, ◌*◌, ◌≤◌, ◌<◌, ◌≡◌, ◌≢◌, refl, sym, ap, ◌∙◌, arith, ◌==◌, ==_iff, ltb,
  if◌then◌else◌, if-true, if-false, if-case, false, Bool-cases, inl, inr, List, [], ◌∷◌, ◌++◌,
  length, get_elem?, take, drop, some,
}
use usrp_atsc.Common.Maybe.{some-cancel, none-some, AllResults, bind-AllResults}
use usrp_atsc.Bch.Bits.{copy_first}
use usrp_atsc.Bch.Field.{GfTables}
use usrp_atsc.Bch.Massey.{massey_loop, start_massey, berlekamp_massey}
use usrp_atsc.Bch.Chien.{degree_loop}

get_elem?-above :
    (n : ℕ) (from to : List ℕ) (k : ℕ)
    → n ≤ length from
    → n ≤ length to
    → n ≤ k
    → get_elem? (take n from ++ drop n to) k ≡ get_elem? to k
get_elem?-above zero from to k h h' h'' = refl
get_elem?-above (suc n) [] to k h h' h'' = absurd (omega arith)
get_elem?-above (suc n) (x ∷ from) [] k h h' h'' = absurd (omega arith)
get_elem?-above (suc n) (x ∷ from) (y ∷ to) zero h h' h'' = absurd (omega arith)
get_elem?-above (suc n) (x ∷ from) (y ∷ to) (suc k) h h' h'' =
    get_elem?-above n from to k (omega arith) (omega arith) (omega arith)

copy_first-above :
    (n : ℕ) (from to : List ℕ) (k : ℕ)
    → n ≤ k
    → AllResults (λ r. get_elem? r k ≡ get_elem? to k) (copy_first n from to)
unfolding copy_first
copy_first-above n from to k h =
    if-case (AllResults (λ r. get_elem? r k ≡ get_elem? to k)) (ltb (length from) n)
      (λ short r e. absurd (none-some e))
      (λ long.
        if-case (AllResults (λ r. get_elem? r k ≡ get_elem? to k)) (ltb (length to) n)
          (λ short r e. absurd (none-some e))
          (λ long' r e.
            ap (λ s. get_elem? s k) (sym (some-cancel e))
            ∙ get_elem?-above n from to k (ground (arith, long)) (ground (arith, long')) h))

-- The search for the degree ends at the last entry that is not 0.
degree_loop-le :
    (locator : List ℕ) (n i degree : ℕ)
    → degree ≤ i
    → AllResults (λ m. degree ≤ m) (degree_loop locator n i degree)
unfolding degree_loop
degree_loop-le locator zero i degree h = λ m e. omega (arith, some-cancel e)
degree_loop-le locator (suc n) i degree h = bind-AllResults _ (get_elem? locator i) _ (λ c e m e'.
    elim (Bool-cases (c == 0)) [
      | inl none_here ↦
          degree_loop-le locator n (i + 1) degree (omega arith) m
            (ap (degree_loop locator n (i + 1)) (sym (if-true _ _ none_here)) ∙ e')
      | inr some_here ↦
          let later =
            degree_loop-le locator n (i + 1) i (omega arith) m
              (ap (degree_loop locator n (i + 1)) (sym (if-false _ _ some_here)) ∙ e') in
          omega (arith, later, h)
    ])

degree_loop-reaches :
    (locator : List ℕ) (k c n i degree : ℕ)
    → get_elem? locator k ≡ some c
    → c ≢ 0
    → degree ≤ i
    → i ≤ k
    → k < i + n
    → AllResults (λ m. k ≤ m) (degree_loop locator n i degree)
unfolding degree_loop
degree_loop-reaches locator k c zero i degree e c0 h h' h'' = absurd (omega arith)
degree_loop-reaches locator k c (suc n) i degree e c0 h h' h'' =
    bind-AllResults _ (get_elem? locator i) _ (λ x e1 m e2. elim (Bool-cases (i == k)) [
      | inl here ↦
          let q : i ≡ k = (==_iff i k).0 here in
          let same : x ≡ c = some-cancel (sym e1 ∙ ap (get_elem? locator) q ∙ e) in
          let some_here : (x == 0) ≡ false = ground (arith, same, c0) in
          let reached =
            degree_loop-le locator n (i + 1) i (omega arith) m
              (ap (degree_loop locator n (i + 1)) (sym (if-false _ _ some_here)) ∙ e2) in
          omega (arith, reached, q)
      | inr before ↦
          degree_loop-reaches locator k c n (i + 1) (if x == 0 then degree else i) e c0
            (if-case (λ d. d ≤ i + 1) (x == 0) (λ z. omega (arith, h)) (λ z. omega arith))
            (ground (arith, h', before)) (omega arith) m e2
    ])

-- Where the error locator holds an entry at `k` that is not 0, up to t, and the algorithm finds fewer than `k`
-- errors, that entry is still there, and the degree that `chien_search` reads is larger than the
-- number of errors.
pub berlekamp_massey-stale :
    (g : GfTables) (t : ℕ) (syndromes locator locator' : List ℕ) (num_errors degree k c : ℕ)
    → berlekamp_massey g t syndromes locator ≡ some (num_errors, locator')
    → get_elem? locator k ≡ some c
    → c ≢ 0
    → k ≤ t
    → num_errors < k
    → degree_loop locator' (t + 1) 0 0 ≡ some degree
    → (get_elem? locator' k ≡ some c) × (num_errors < degree)
unfolding berlekamp_massey
berlekamp_massey-stale g t syndromes locator locator' num_errors degree k c e e1 c0 h h' e2 =
    let kept =
      bind-AllResults Kept (massey_loop g t syndromes (2 * t) 1 (start_massey t)) _
        (λ b eb.
          bind-AllResults Kept (copy_first (b.num_errors + 1) b.sigma locator) _
            (λ copied ec out eo fewer.
              let q = ap (λ (p : ℕ × List ℕ). p.0) (some-cancel eo) in
              ap (λ (p : ℕ × List ℕ). get_elem? (p.1) k) (sym (some-cancel eo))
              ∙ copy_first-above (b.num_errors + 1) b.sigma locator k (omega (arith, q, fewer))
                  copied ec))
        (num_errors, locator') e h' in
    let reached =
      degree_loop-reaches locator' k c (t + 1) 0 0 (kept ∙ e1) c0 (omega arith) (omega arith)
        (omega (arith, h)) degree e2 in
    (kept ∙ e1, omega (arith, reached, h'))
  where
    Kept : ℕ × List ℕ → Type 0
    Kept out = out.0 < k → get_elem? (out.1) k ≡ get_elem? locator k
