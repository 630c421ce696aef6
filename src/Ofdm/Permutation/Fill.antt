-- ===== src/Ofdm/Permutation/Fill.antt =====
-- The loop that fills the sources that have no pair, with the places that are left.
use usrp_atsc.Common.{
  ℕ, zero, suc, ◌+◌, ◌≤◌, ◌<◌, ◌≡◌, refl, ap, ◌∙◌, arith, if◌then◌else◌, Bool, true, false, List,
  [], ◌∷◌, length, get_or, set, length-set, get_or-set_self, get_or-set_ne, some,
}
use mathlib.Core.Path.{ap₂, subst}
use usrp_atsc.Ofdm.Permutation.{unused_places, fill_unused}

pub list-ext {ℓ} :
    {A : Type ℓ} (d : A) (xs ys : List A)
    → length xs ≡ length ys
    → ((i : ℕ) → i < length xs → get_or xs i d ≡ get_or ys i d)
    → xs ≡ ys
list-ext d [] [] e h = refl
list-ext d [] (y ∷ ys) e h = absurd (omega (arith, e))
list-ext d (x ∷ xs) [] e h = absurd (omega (arith, e))
list-ext d (x ∷ xs) (y ∷ ys) e h =
    ap₂ (λ a l. a ∷ l) (h 0 (omega arith))
      (list-ext d xs ys (omega (arith, e)) (λ i low. h (suc i) (omega (arith, low))))

-- What the loop that fills the sources makes of a table.
pub record Filled (fwd : List ℕ) (i : ℕ) (used : List Bool) : Type 0 where
  pub table : List ℕ
  pub result : fill_unused fwd i used (unused_places i used) ≡ some table
  pub size : length table ≡ length fwd
  pub below : (j : ℕ) → j < i → get_or table j 0 ≡ get_or fwd j 0
  pub at :
      (d : ℕ)
      → d < length used
      → get_or table (i + d) 0 ≡ (if get_or used d true then get_or fwd (i + d) 0 else i + d)

pub fill :
    (fwd : List ℕ) (i : ℕ) (used : List Bool) → i + length used ≤ length fwd → Filled fwd i used
unfolding fill_unused unused_places
fill fwd i [] h = record {
  table = fwd;
  result = refl;
  size = refl;
  below = λ j low. refl;
  at = λ d low. absurd (omega (arith, low));
}
fill fwd i (true ∷ used) h =
    let f = fill fwd (i + 1) used (omega (arith, h)) in
    record {
      table = f.table;
      result = f.result;
      size = f.size;
      below = λ j low. f.below j (omega (arith, low));
      at = at_used f;
    }
  where
    at_used :
        (f : Filled fwd (i + 1) used) (d : ℕ)
        → d < suc (length used)
        → get_or f.table (i + d) 0
          ≡ (if get_or (true ∷ used) d true then get_or fwd (i + d) 0 else i + d)
    at_used f zero low = f.below (i + 0) (omega arith)
    at_used f (suc d) low =
        subst (λ k. get_or f.table k 0 ≡ (if get_or used d true then get_or fwd k 0 else k))
          (omega arith) (f.at d (omega (arith, low)))
fill fwd i (false ∷ used) h =
    let f = fill (set fwd i i) (i + 1) used (omega (arith, h, length-set fwd i i)) in
    record {
      table = f.table;
      result = f.result;
      size = f.size ∙ length-set fwd i i;
      below = λ j low.
          f.below j (omega (arith, low))
          ∙ get_or-set_ne fwd i j i 0 (λ e. absurd (omega (arith, e, low)));
      at = at_free f;
    }
  where
    at_free :
        (f : Filled (set fwd i i) (i + 1) used) (d : ℕ)
        → d < suc (length used)
        → get_or f.table (i + d) 0
          ≡ (if get_or (false ∷ used) d true then get_or fwd (i + d) 0 else i + d)
    at_free f zero low =
        f.below (i + 0) (omega arith)
        ∙ ap (λ k. get_or (set fwd i i) k 0) (omega arith)
        ∙ get_or-set_self fwd i i 0 (omega (arith, h))
        ∙ omega arith
    at_free f (suc d) low =
        subst (λ k. get_or f.table k 0 ≡ (if get_or used d true then get_or fwd k 0 else k))
          (omega arith)
          (f.at d (omega (arith, low))
            ∙ ap (λ t. if get_or used d true then t else i + 1 + d)
                (get_or-set_ne fwd i (i + 1 + d) i 0 (λ e. absurd (omega (arith, e)))))
