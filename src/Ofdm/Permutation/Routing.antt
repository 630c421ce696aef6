-- ===== src/Ofdm/Permutation/Routing.antt =====
-- What a gather through the table does to the cells of a block.
use usrp_atsc.Common.{
  ℕ, zero, suc, ◌+◌, ◌^◌, ◌<◌, ◌≡◌, refl, sym, ap, ◌∙◌, arith, List, [], ◌∷◌, length, get_elem?,
  get_or, some,
}
use mathlib.Core.Path.{subst}
use usrp_atsc.Common.Maybe.{bind-next}
use usrp_atsc.Ofdm.Permutation.{bits_for, SimdTier, gather, gather_scalar}
use usrp_atsc.Ofdm.Permutation.Fill.{list-ext}
use usrp_atsc.Ofdm.Permutation.Forward.{place, IsForward, place-lt_size, place-undone}
use usrp_atsc.Ofdm.Permutation.Gather.{gather-gather_scalar}

-- The cells that `f` names, at `rounds` places from `i` on.
pub routed : (ℕ → ℕ) → List ℕ → ℕ → ℕ → List ℕ
routed f cells i zero = []
routed f cells i (suc rounds) = get_or cells (f i) 0 ∷ routed f cells (i + 1) rounds

get_elem?-in {ℓ} :
    {A : Type ℓ} (xs : List A) (i : ℕ) (d : A)
    → i < length xs
    → get_elem? xs i ≡ some (get_or xs i d)
get_elem?-in [] i d h = absurd (omega (arith, h))
get_elem?-in (x ∷ xs) zero d h = refl
get_elem?-in (x ∷ xs) (suc i) d h = get_elem?-in xs i d (omega (arith, h))

pub gather_scalar-routed :
    (f : ℕ → ℕ) (cells indices : List ℕ) (i : ℕ)
    → ((d : ℕ) → d < length indices → get_or indices d 0 ≡ f (i + d))
    → ((d : ℕ) → d < length indices → f (i + d) < length cells)
    → gather_scalar cells indices ≡ some (routed f cells i (length indices))
unfolding gather_scalar routed
gather_scalar-routed f cells [] i h h' = refl
gather_scalar-routed f cells (x ∷ indices) i h h' =
    let e : x ≡ f i = h 0 (omega arith) ∙ ap f (omega arith) in
    let low : f i < length cells =
      subst (λ k. f k < length cells) (omega arith) (h' 0 (omega arith)) in
    bind-next (get_elem? cells x) _ (get_or cells (f i) 0) _
      (ap (get_elem? cells) e ∙ get_elem?-in cells (f i) 0 low)
      (bind-next (gather_scalar cells indices) _ _ _
        (gather_scalar-routed f cells indices (i + 1)
          (λ d b. h (suc d) (omega (arith, b)) ∙ ap f (omega arith))
          (λ d b. subst (λ k. f k < length cells) (omega arith) (h' (suc d) (omega (arith, b)))))
        refl)

pub length-routed :
    (f : ℕ → ℕ) (cells : List ℕ) (i rounds : ℕ) → length (routed f cells i rounds) ≡ rounds
unfolding routed
length-routed f cells i zero = refl
length-routed f cells i (suc rounds) = ap suc (length-routed f cells (i + 1) rounds)

pub get_or-routed :
    (f : ℕ → ℕ) (cells : List ℕ) (i rounds d : ℕ)
    → d < rounds
    → get_or (routed f cells i rounds) d 0 ≡ get_or cells (f (i + d)) 0
unfolding routed
get_or-routed f cells i zero d h = absurd (omega (arith, h))
get_or-routed f cells i (suc rounds) zero h = ap (λ k. get_or cells (f k) 0) (omega arith)
get_or-routed f cells i (suc rounds) (suc d) h =
    get_or-routed f cells (i + 1) rounds d (omega (arith, h))
    ∙ ap (λ k. get_or cells (f k) 0) (omega arith)

-- The place of a cell in a block of `n`.
abbrev pub place_in : ℕ → ℕ → ℕ
place_in n i = place n (bits_for n) i

-- `n` cells, each from the place that its own place goes to.
pub deinterleaved : ℕ → List ℕ → List ℕ
deinterleaved n cells = routed (place_in n) cells 0 n

pub length-deinterleaved : (n : ℕ) (cells : List ℕ) → length (deinterleaved n cells) ≡ n
unfolding deinterleaved
length-deinterleaved n cells = length-routed (place_in n) cells 0 n

pub deinterleaved-at :
    (n : ℕ) (cells : List ℕ) (i : ℕ)
    → i < n
    → get_or (deinterleaved n cells) i 0 ≡ get_or cells (place_in n i) 0
unfolding deinterleaved
deinterleaved-at n cells i h =
    get_or-routed (place_in n) cells 0 n i h ∙ ap (λ k. get_or cells (place_in n k) 0) (omega arith)

pub gather-table :
    (tier : SimdTier) (cells table : List ℕ) (m : ℕ)
    → m < 2 ^ 63
    → length cells ≡ suc m
    → IsForward (suc m) (bits_for (suc m)) table
    → gather tier cells table ≡ some (deinterleaved (suc m) cells)
unfolding deinterleaved
gather-table tier cells table m small e f =
    gather-gather_scalar tier cells table
    ∙ gather_scalar-routed (place_in (suc m)) cells table 0
        (λ d h. f.at d (omega (arith, h, f.size)) ∙ ap (place_in (suc m)) (omega arith))
        (λ d h.
          let same : d ≡ 0 + d = omega arith in
          subst (λ k. place_in (suc m) k < length cells) same
            (omega (arith, place-lt_size m d small (omega (arith, h, f.size)), e)))
    ∙ ap (λ k. some (routed (place_in (suc m)) cells 0 k)) f.size

-- A second pass undoes the first.
pub deinterleaved-twice :
    (cells : List ℕ) (m : ℕ)
    → m < 2 ^ 63
    → length cells ≡ suc m
    → deinterleaved (suc m) (deinterleaved (suc m) cells) ≡ cells
deinterleaved-twice cells m small e =
    let n = suc m in
    list-ext 0 (deinterleaved n (deinterleaved n cells)) cells
      (length-deinterleaved n (deinterleaved n cells) ∙ sym e)
      (λ i h.
        let low : i < suc m = omega (arith, h, length-deinterleaved n (deinterleaved n cells)) in
        deinterleaved-at n (deinterleaved n cells) i low
        ∙ deinterleaved-at n cells (place_in n i) (place-lt_size m i small low)
        ∙ ap (λ k. get_or cells k 0) (place-undone m i small low))
