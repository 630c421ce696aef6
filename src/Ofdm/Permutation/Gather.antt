-- ===== src/Ofdm/Permutation/Gather.antt =====
-- The gathers with blocks and without, and what they give on a table.
use usrp_atsc.Common.{
  ℕ, zero, suc, ◌≡◌, refl, sym, ap, ◌∙◌, leb, if-case, List, [], ◌∷◌, ◌++◌, length, get_elem?, take,
  drop, take-append-drop, Option, none, some,
}
use usrp_atsc.Common.Maybe.{◌>>=◌}
use usrp_atsc.Ofdm.Permutation.{gather_scalar, gather_blocks, SimdTier, gather}

bind_assoc {ℓ κ λ'} :
    {A : Type ℓ} {B : Type κ} {C : Type λ'} (o : Option A) (f : A → Option B) (g : B → Option C)
    → ((o >>= f) >>= g) ≡ (o >>= λ a. f a >>= g)
bind_assoc none f g = refl
bind_assoc (some a) f g = refl

bind_right {ℓ κ} :
    {A : Type ℓ} {B : Type κ} (o : Option A) (f g : A → Option B)
    → ((a : A) → f a ≡ g a)
    → (o >>= f) ≡ (o >>= g)
bind_right none f g h = refl
bind_right (some a) f g h = h a

bind_unit {ℓ} : {A : Type ℓ} (o : Option A) → (o >>= λ a. some a) ≡ o
bind_unit none = refl
bind_unit (some a) = refl

gather_scalar-append :
    (src xs ys : List ℕ)
    → gather_scalar src (xs ++ ys)
      ≡ (gather_scalar src xs >>= λ a. gather_scalar src ys >>= λ b. some (a ++ b))
unfolding gather_scalar
gather_scalar-append src [] ys = sym (bind_unit (gather_scalar src ys))
gather_scalar-append src (x ∷ xs) ys =
    bind_right (get_elem? src x) _ _ (λ v.
      ap (λ o. o >>= λ vs. some (v ∷ vs)) (gather_scalar-append src xs ys)
      ∙ bind_assoc (gather_scalar src xs) _ _
      ∙ bind_right (gather_scalar src xs) _ _ (λ a. bind_assoc (gather_scalar src ys) _ _)
      ∙ sym (bind_assoc (gather_scalar src xs) (λ vs. some (v ∷ vs)) _))
    ∙ sym (bind_assoc (get_elem? src x) _ _)

gather_blocks-gather_scalar :
    (w rounds : ℕ) (src indices : List ℕ)
    → gather_blocks w rounds src indices ≡ gather_scalar src indices
unfolding gather_blocks
gather_blocks-gather_scalar w zero src indices = refl
gather_blocks-gather_scalar w (suc rounds) src indices =
    if-case (λ o. o ≡ gather_scalar src indices) (leb w (length indices))
      (λ full.
        bind_right (gather_scalar src (take w indices)) _ _ (λ a.
          ap (λ o. o >>= λ b. some (a ++ b))
            (gather_blocks-gather_scalar w rounds src (drop w indices)))
        ∙ sym (gather_scalar-append src (take w indices) (drop w indices))
        ∙ ap (gather_scalar src) (take-append-drop w indices))
      (λ short. refl)

-- On every processor, the gather in blocks with its cleanup gives what the scalar gather gives, faults
-- included.
pub gather-gather_scalar :
    (tier : SimdTier) (src indices : List ℕ) → gather tier src indices ≡ gather_scalar src indices
unfolding gather
gather-gather_scalar SimdTier.avx2 src indices =
    gather_blocks-gather_scalar 32 (length indices) src indices
gather-gather_scalar SimdTier.ssse3 src indices =
    gather_blocks-gather_scalar 16 (length indices) src indices
gather-gather_scalar SimdTier.scalar src indices = refl
