-- ===== src/Ofdm/Permutation/Inverse.antt =====
-- The inverse table, and that it is the forward table.
use usrp_atsc.Common.{
  ℕ, zero, suc, ◌+◌, ◌^◌, ◌<◌, ◌≡◌, ◌≢◌, refl, sym, ap, ◌∙◌, arith, List, [], ◌∷◌, length, get_or,
  set, resize, length-set, length-resize, get_or-set_self, get_or-set_ne, some, none, if-true,
}
use usrp_atsc.Common.Maybe.{bind-next}
use usrp_atsc.Ofdm.Permutation.{bits_for, forward_table, invert_table, inverse_table}
use usrp_atsc.Ofdm.Permutation.Forward.{
  place, IsForward, forward_table-IsForward, place-lt_size, place-undone,
}

-- The inverse of a table whose entries are inside of the vector.
abbrev inverted : List ℕ → ℕ → List ℕ → List ℕ
inverted inv i [] = inv
inverted inv i (j ∷ js) = inverted (set inv j i) (i + 1) js

invert_table-inverted :
    (inv js : List ℕ) (i : ℕ)
    → ((d : ℕ) → d < length js → get_or js d 0 < length inv)
    → invert_table inv i js ≡ some (inverted inv i js)
unfolding invert_table
invert_table-inverted inv [] i within = refl
invert_table-inverted inv (j ∷ js) i within =
    if-true (invert_table (set inv j i) (i + 1) js) none (ground (arith, within 0 (omega arith)))
    ∙ invert_table-inverted (set inv j i) js (i + 1)
        (λ d low. omega (arith, within (suc d) (omega (arith, low)), length-set inv j i))

length-inverted : (inv js : List ℕ) (i : ℕ) → length (inverted inv i js) ≡ length inv
length-inverted inv [] i = refl
length-inverted inv (j ∷ js) i = length-inverted (set inv j i) js (i + 1) ∙ length-set inv j i

-- A place that is not in the table keeps what it holds.
inverted-other :
    (inv js : List ℕ) (i x : ℕ)
    → ((d : ℕ) → d < length js → get_or js d 0 ≢ x)
    → get_or (inverted inv i js) x 0 ≡ get_or inv x 0
inverted-other inv [] i x h = refl
inverted-other inv (j ∷ js) i x h =
    inverted-other (set inv j i) js (i + 1) x (λ d low. h (suc d) (omega (arith, low)))
    ∙ get_or-set_ne inv j x i 0 (h 0 (omega arith))

-- A table without repetitions is inverted.
inverted-at :
    (inv js : List ℕ) (i : ℕ)
    → ((d : ℕ) → d < length js → get_or js d 0 < length inv)
    → ((d e : ℕ) → d < e → e < length js → get_or js d 0 ≢ get_or js e 0)
    → (d : ℕ) → d < length js
    → get_or (inverted inv i js) (get_or js d 0) 0 ≡ i + d
inverted-at inv [] i within distinct d h = absurd (omega (arith, h))
inverted-at inv (j ∷ js) i within distinct zero h =
    inverted-other (set inv j i) js (i + 1) j
      (λ d low e. distinct 0 (suc d) (omega arith) (omega (arith, low)) (sym e))
    ∙ get_or-set_self inv j i 0 (within 0 (omega arith))
    ∙ omega arith
inverted-at inv (j ∷ js) i within distinct (suc d) h =
    inverted-at (set inv j i) js (i + 1)
      (λ c low. omega (arith, within (suc c) (omega (arith, low)), length-set inv j i))
      (λ c e low high. distinct (suc c) (suc e) (omega (arith, low)) (omega (arith, high))) d
      (omega (arith, h))
    ∙ omega arith

module _ (m : ℕ) (small : m < 2 ^ 63) where
  no_repetition :
      (t : List ℕ)
      → IsForward (suc m) (bits_for (suc m)) t
      → (d e : ℕ) → d < e
      → e < length t
      → get_or t d 0 ≢ get_or t e 0
  no_repetition t f d e low high q =
      let below : e < suc m = omega (arith, high, f.size) in
      let same = sym (f.at d (omega (arith, low, below))) ∙ q ∙ f.at e below in
      let equal =
        sym (place-undone m d small (omega (arith, low, below)))
        ∙ ap (place (suc m) (bits_for (suc m))) same
        ∙ place-undone m e small below in
      absurd (omega (arith, equal, low))

  in_table :
      (inv : List ℕ)
      → length inv ≡ suc m
      → (t : List ℕ) → IsForward (suc m) (bits_for (suc m)) t
      → (d : ℕ) → d < suc m
      → get_or t d 0 < length inv
  in_table inv full t f d h = omega (arith, f.at d h, place-lt_size m d small h, full)

  inverse_at :
      (inv : List ℕ)
      → length inv ≡ suc m
      → (t : List ℕ) → IsForward (suc m) (bits_for (suc m)) t
      → (i : ℕ) → i < suc m
      → get_or (inverted inv 0 t) i 0 ≡ place (suc m) (bits_for (suc m)) i
  inverse_at inv full t f i low =
      let p = place (suc m) (bits_for (suc m)) i in
      let below : p < suc m = place-lt_size m i small low in
      ap (λ k. get_or (inverted inv 0 t) k 0) (sym (f.at p below ∙ place-undone m i small low))
      ∙ inverted-at inv t 0 (λ d h. in_table inv full t f d (omega (arith, h, f.size)))
          (no_repetition t f) p (omega (arith, below, f.size))
      ∙ omega arith

  pub inverse_table-IsForward :
      (old : List ℕ)
      → (t : List ℕ) × (inverse_table old (suc m) ≡ some t) × IsForward (suc m) (bits_for (suc m)) t
  unfolding inverse_table
  inverse_table-IsForward old =
      let (t, e, f) = forward_table-IsForward m small in
      let inv = inverted (resize old (suc m) 0) 0 t in
      (
        inv,
        bind-next (forward_table (suc m)) _ t _ e (
            invert_table-inverted (resize old (suc m) 0) t 0 (λ d h.
              in_table (resize old (suc m) 0) (length-resize old (suc m) 0) t f d
                (omega (arith, h, f.size)))),
        record {
          size = length-inverted (resize old (suc m) 0) t 0 ∙ length-resize old (suc m) 0;
          at = inverse_at (resize old (suc m) 0) (length-resize old (suc m) 0) t f;
        },
      )
