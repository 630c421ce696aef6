-- ===== src/RingBuffer/Window.antt =====
-- The items between the tail and the head of a ring.
use usrp_atsc.Common.{
  ℕ, zero, suc, ◌+◌, ◌-◌, ◌%◌, ◌^◌, ◌<◌, ◌≡◌, ◌≢◌, refl, sym, ap, ◌∙◌, arith, ◌==◌, ==_iff, ltb,
  if◌then◌else◌, if-true, if-false, Bool-cases, inl, inr, List, [], ◌∷◌, ◌++◌, length, get_or, set,
  get_or-set_ne,
}
use mathlib.Core.Path.{ap₂}
use native.Mathlib.Nat.{mod-eq_of_lt, mod_self}
use usrp_atsc.Common.And.{and-mask}
use usrp_atsc.RingBuffer.{next_index}

-- The index after `i`.
abbrev pub turn : ℕ → ℕ → ℕ
turn capacity i = if i + 1 == capacity then 0 else i + 1

mod-turn : (capacity i : ℕ) → i < capacity → (i + 1) % capacity ≡ turn capacity i
mod-turn capacity i h = elim (Bool-cases (i + 1 == capacity)) [
  | inl last ↦
      let e = (==_iff (i + 1) capacity).0 last in
      ap (λ t. t % capacity) e ∙ mod_self capacity ∙ sym (if-true 0 (i + 1) last)
  | inr inner ↦ mod-eq_of_lt (ground (arith, h, inner)) ∙ sym (if-false 0 (i + 1) inner)
]

pub next_index-turn : (k i : ℕ) → i < 2 ^ k → next_index (2 ^ k) i ≡ turn (2 ^ k) i
unfolding next_index
next_index-turn k i h = and-mask k (i + 1) ∙ mod-turn (2 ^ k) i h

-- `n` turns from `i`.
pub ahead : ℕ → ℕ → ℕ → ℕ
ahead capacity i zero = i
ahead capacity i (suc n) = ahead capacity (turn capacity i) n

pub ahead_lem :
    (capacity i n : ℕ)
    → i < capacity
    → n < capacity
    → ahead capacity i n ≡ (if ltb (i + n) capacity then i + n else i + n - capacity)
unfolding ahead
ahead_lem capacity i zero h h' = ground (arith, h)
ahead_lem capacity i (suc n) h h' =
    let rest = ahead_lem capacity (turn capacity i) n (ground (arith, h)) (omega (arith, h')) in
    ground (arith, rest, h, h')

pub ahead-last : (capacity i n : ℕ) → ahead capacity i (suc n) ≡ turn capacity (ahead capacity i n)
unfolding ahead
ahead-last capacity i zero = refl
ahead-last capacity i (suc n) = ahead-last capacity (turn capacity i) n

-- `n` items from index `i` on.
pub window : ℕ → List ℕ → ℕ → ℕ → List ℕ
window capacity b i zero = []
window capacity b i (suc n) = get_or b i 0 ∷ window capacity b (turn capacity i) n

pub length-window : (capacity : ℕ) (b : List ℕ) (i n : ℕ) → length (window capacity b i n) ≡ n
unfolding window
length-window capacity b i zero = refl
length-window capacity b i (suc n) = ap suc (length-window capacity b (turn capacity i) n)

pub window-last :
    (capacity : ℕ) (b : List ℕ) (i n : ℕ)
    → window capacity b i (suc n) ≡ window capacity b i n ++ get_or b (ahead capacity i n) 0 ∷ []
unfolding window ahead
window-last capacity b i zero = refl
window-last capacity b i (suc n) =
    ap (◌∷◌ (get_or b i 0)) (window-last capacity b (turn capacity i) n)

pub window-first :
    (capacity : ℕ) (b : List ℕ) (i n : ℕ)
    → window capacity b i (suc n) ≡ get_or b i 0 ∷ window capacity b (turn capacity i) n
unfolding window
window-first capacity b i n = refl

-- A write outside of the window leaves it as it is.
pub window-set :
    (capacity : ℕ) (b : List ℕ) (i n p v : ℕ)
    → ((m : ℕ) → m < n → ahead capacity i m ≢ p)
    → window capacity (set b p v) i n ≡ window capacity b i n
unfolding window ahead
window-set capacity b i zero p v h = refl
window-set capacity b i (suc n) p v h =
    ap₂ (λ x xs. x ∷ xs) (get_or-set_ne b p i v 0 (λ e. h 0 (omega arith) (sym e)))
      (window-set capacity b (turn capacity i) n p v (λ m low. h (suc m) (omega (arith, low))))

pub window-zero : (capacity : ℕ) (b : List ℕ) (i : ℕ) → window capacity b i 0 ≡ []
unfolding window
window-zero capacity b i = refl

pub ahead-zero : (capacity i : ℕ) → ahead capacity i 0 ≡ i
unfolding ahead
ahead-zero capacity i = refl

pub ahead-suc : (capacity i n : ℕ) → ahead capacity i (suc n) ≡ ahead capacity (turn capacity i) n
unfolding ahead
ahead-suc capacity i n = refl
