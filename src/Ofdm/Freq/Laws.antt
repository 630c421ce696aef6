-- ===== src/Ofdm/Freq/Laws.antt =====
-- What the frequency deinterleaver does to the carriers.
use usrp_atsc.Common.{
  ℕ, zero, suc, ◌+◌, ◌^◌, ◌<◌, ◌≡◌, ◌≢◌, refl, sym, ap, ◌∙◌, arith, leb, if-true, if-false, false,
  List, [], ◌∷◌, ◌++◌, append-nil, take, drop, length, get_or, resize, take-length,
  drop-length-append, some,
}
use mathlib.Core.Path.{ap₂}
use usrp_atsc.Common.Maybe.{bind-next}
use usrp_atsc.Ofdm.Permutation.{bits_for, inverse_table, SimdTier, gather}
use usrp_atsc.Ofdm.Permutation.Forward.{IsForward, place-lt_size, place-undone}
use usrp_atsc.Ofdm.Permutation.Inverse.{inverse_table-IsForward}
use usrp_atsc.Ofdm.Permutation.Routing.{
  place_in, deinterleaved, length-deinterleaved, deinterleaved-at, gather-table,
}
use usrp_atsc.Ofdm.Freq.{
  FreqDeinterleaver, has_no_table, active_carriers, carrier_table, freq_compute_permutation,
  new_freq_deinterleaver, find_carrier, found_or, freq_interleaver_permutation, freq_deinterleave,
  freq_deinterleave_inplace,
}

-- A deinterleaver with the table of its carriers.
pub record IsTuned (m : ℕ) (d : FreqDeinterleaver) : Type 0 where
  pub carriers : d.num_active_carriers ≡ suc m
  pub table : IsForward (suc m) (bits_for (suc m)) d.inv_permutation

pub new_freq_deinterleaver-IsTuned :
    (fft_size num_carriers m : ℕ)
    → active_carriers (record {
      fft_size = fft_size;
      num_active_carriers = num_carriers;
      inv_permutation = [];
      temp_buffer = [];
    })
      ≡ suc m
    → m < 2 ^ 63
    → (d : FreqDeinterleaver) × (new_freq_deinterleaver fft_size num_carriers ≡ some d)
      × IsTuned m d
unfolding new_freq_deinterleaver carrier_table freq_compute_permutation
new_freq_deinterleaver-IsTuned fft_size num_carriers m e small =
    let fresh : FreqDeinterleaver = record {
      fft_size = fft_size;
      num_active_carriers = num_carriers;
      inv_permutation = [];
      temp_buffer = [];
    } in
    let (t, found, f) = inverse_table-IsForward m small [] in
    (
      record fresh {
        num_active_carriers = suc m;
        inv_permutation = t;
        temp_buffer = resize [] (suc m) 0;
      },
      ap (carrier_table fresh) e ∙ bind-next (inverse_table [] (suc m)) _ t _ found refl,
      record { carriers = refl; table = f },
    )

-- The search finds the first place that holds the position.
find_carrier-first :
    (inv : List ℕ) (j k p : ℕ)
    → k < length inv
    → get_or inv k 0 ≡ p
    → ((i : ℕ) → i < k → get_or inv i 0 ≢ p)
    → find_carrier inv j p ≡ some (j + k)
unfolding find_carrier
find_carrier-first [] j k p h e first = absurd (omega (arith, h))
find_carrier-first (i ∷ inv) j zero p h e first =
    if-true (some j) (find_carrier inv (j + 1) p) (ground (arith, e)) ∙ ap some (omega arith)
find_carrier-first (i ∷ inv) j (suc k) p h e first =
    let ne : i ≢ p = first 0 (omega arith) in
    if-false (some j) (find_carrier inv (j + 1) p) (ground (arith, ne))
    ∙ find_carrier-first inv (j + 1) k p (omega (arith, h)) e
        (λ l low. first (suc l) (omega (arith, low)))
    ∙ ap some (omega arith)

module _ (m : ℕ) (small : m < 2 ^ 63) (d : FreqDeinterleaver) (t : IsTuned m d) where
  position_found :
      (i : ℕ) → i < suc m → find_carrier d.inv_permutation 0 i ≡ some (place_in (suc m) i)
  position_found i low =
      let k = place_in (suc m) i in
      let below : k < suc m = place-lt_size m i small low in
      find_carrier-first d.inv_permutation 0 k i (omega (arith, below, t.table.size))
        (t.table.at k below ∙ place-undone m i small low)
        (λ j h e.
          let back : k ≡ j =
            ap (place_in (suc m)) (sym e ∙ t.table.at j (omega (arith, h, below)))
            ∙ place-undone m j small (omega (arith, h, below)) in
          absurd (omega (arith, back, h)))
      ∙ ap some (omega arith)

  present : has_no_table d ≡ false
  present = let c = t.carriers in let s = t.table.size in ground arith

  position_is : (i : ℕ) → i < suc m → freq_interleaver_permutation d i ≡ place_in (suc m) i
  unfolding freq_interleaver_permutation
  position_is i low =
      if-false {b = leb d.num_active_carriers i} i _ (let c = t.carriers in ground arith)
      ∙ ap (found_or i) (position_found i low)

  rest_empty : (xs : List ℕ) → length xs ≡ suc m → drop d.num_active_carriers xs ≡ []
  rest_empty xs e =
      ap (λ n. drop n xs) (t.carriers ∙ sym e)
      ∙ ap (drop (length xs)) (sym (append-nil xs))
      ∙ drop-length-append xs []

  into :
      (tier : SimdTier) (input output : List ℕ)
      → length input ≡ suc m
      → length output ≡ suc m
      → freq_deinterleave tier d input output ≡ some (deinterleaved (suc m) input)
  unfolding freq_deinterleave
  into tier input output e e' =
      if-false (some output) _ present
      ∙ bind-next (gather tier input d.inv_permutation) _ (deinterleaved (suc m) input) _
          (gather-table tier input d.inv_permutation m small e t.table)
          (ap (λ l. some (deinterleaved (suc m) input ++ l)) (rest_empty output e')
            ∙ ap some (append-nil (deinterleaved (suc m) input)))

  in_place :
      (tier : SimdTier) (input : List ℕ)
      → length input ≡ suc m
      → freq_deinterleave_inplace tier d input
        ≡ some (deinterleaved (suc m) input, record d { temp_buffer = input })
  unfolding freq_deinterleave_inplace
  in_place tier input e =
      if-false (some (input, d)) _ present
      ∙ bind-next (gather tier (take d.num_active_carriers input) d.inv_permutation) _
          (deinterleaved (suc m) input) _
          (ap (λ xs. gather tier xs d.inv_permutation) all
            ∙ gather-table tier input d.inv_permutation m small e t.table)
          (ap₂ (λ l xs. some (deinterleaved (suc m) input ++ l, record d { temp_buffer = xs }))
              (rest_empty input e) all
            ∙ ap (λ l. some (l, record d { temp_buffer = input }))
                (append-nil (deinterleaved (suc m) input)))
    where
      all : take d.num_active_carriers input ≡ input
      all = ap (λ n. take n input) (t.carriers ∙ sym e) ∙ take-length input

-- What the constructor starts from.
abbrev pub fresh_carriers : ℕ → ℕ → FreqDeinterleaver
fresh_carriers fft_size num_carriers = record {
  fft_size = fft_size;
  num_active_carriers = num_carriers;
  inv_permutation = [];
  temp_buffer = [];
}

-- For a configuration with `m + 1` carriers, at most 2 ^ 63, the constructor makes its table inside of its
-- vectors, and on every processor both calls give the carriers of a symbol with the one of place `i` at
-- the place that `interleaver_permutation` names for `i`, for every `i` below `m + 1`.
pub freq_deinterleave-freq_interleaver_permutation :
    (tier : SimdTier) (fft_size num_carriers m : ℕ) (input output : List ℕ) (i : ℕ)
    → active_carriers (fresh_carriers fft_size num_carriers) ≡ suc m
    → m < 2 ^ 63
    → length input ≡ suc m
    → length output ≡ suc m
    → i < suc m
    → (d : FreqDeinterleaver) × (out : List ℕ) × (new_freq_deinterleaver fft_size num_carriers
        ≡ some d)
      × (freq_deinterleave tier d input output ≡ some out)
      × (freq_deinterleave_inplace tier d input ≡ some (out, record d { temp_buffer = input }))
      × (length out ≡ suc m)
      × (freq_interleaver_permutation d i < suc m)
      × (get_or out (freq_interleaver_permutation d i) 0 ≡ get_or input i 0)
freq_deinterleave-freq_interleaver_permutation tier fft_size num_carriers m input output i h small e
      e' low =
    let (d, made, t) = new_freq_deinterleaver-IsTuned fft_size num_carriers m h small in
    let position = position_is m small d t i low in
    let below : place_in (suc m) i < suc m = place-lt_size m i small low in
    (
      d,
      deinterleaved (suc m) input,
      made,
      into m small d t tier input output e e',
      in_place m small d t tier input e,
      length-deinterleaved (suc m) input,
      omega (arith, position, below),
      ap (λ k. get_or (deinterleaved (suc m) input) k 0) position
          ∙ deinterleaved-at (suc m) input (place_in (suc m) i) below
          ∙ ap (λ k. get_or input k 0) (place-undone m i small low),
    )
