-- ===== src/RingBuffer/Runs.antt =====
-- What the calls of a ring buffer give after any interleaving of its threads.
use usrp_atsc.Common.{
  ℕ, zero, suc, ◌+◌, ◌^◌, ◌<◌, ◌≡◌, sym, ap, ◌∙◌, arith, ◌==◌, if◌then◌else◌, if-true, if-false,
  Bool-cases, Bool, false, inl, inr, List, [], ◌∷◌, ◌++◌, length, get_or, not, Option, none, some,
}
use usrp_atsc.RingBuffer.{RingBuffer, is_full, is_empty, push, pop, peek, Reachable}
use usrp_atsc.RingBuffer.Window.{window, length-window, window-first, window-zero}
use usrp_atsc.RingBuffer.Safety.{is_full-len, is_empty-len}
use usrp_atsc.RingBuffer.Steps.{IsSafe-Reachable}

-- The first item of a queue.
abbrev pub first_of : List ℕ → Option ℕ
first_of [] = none
first_of (x ∷ xs) = some x

first_of-window :
    (capacity : ℕ) (b : List ℕ) (i n : ℕ)
    → (if n == 0 then none else some (get_or b i 0)) ≡ first_of (window capacity b i n)
first_of-window capacity b i zero = ap first_of (sym (window-zero capacity b i))
first_of-window capacity b i (suc n) =
    if-false none (some (get_or b i 0)) (ground arith)
    ∙ ap first_of (sym (window-first capacity b i n))

pop-if :
    (capacity : ℕ) (r : RingBuffer)
    → (pop capacity r).0 ≡ (if is_empty r then none else some (get_or r.buffer r.tail 0))
unfolding pop
pop-if capacity r = elim (Bool-cases (is_empty r)) [
  | inl empty ↦
      ap (λ (x : Option ℕ × RingBuffer). x.0) (if-true (none, r) _ empty)
      ∙ sym (if-true none (some (get_or r.buffer r.tail 0)) empty)
  | inr full ↦
      ap (λ (x : Option ℕ × RingBuffer). x.0) (if-false (none, r) _ full)
      ∙ sym (if-false none (some (get_or r.buffer r.tail 0)) full)
]

push-if :
    (capacity : ℕ) (r : RingBuffer) (item : ℕ) → (push capacity r item).0 ≡ not (is_full capacity r)
unfolding push
push-if capacity r item = elim (Bool-cases (is_full capacity r)) [
  | inl full ↦ ap (λ (x : Bool × RingBuffer). x.0) (if-true (false, r) _ full) ∙ sym (ap not full)
  | inr free ↦ ap (λ (x : Bool × RingBuffer). x.0) (if-false (false, r) _ free) ∙ sym (ap not free)
]

-- After every interleaving of the steps of one producer and one consumer on a new buffer of capacity
-- 2 ^ k: the items that were pushed are the ones that were popped, in the same order, followed by a
-- queue of at most 2 ^ k - 1 items. A `push` that starts now and is not disturbed returns false exactly
-- where the queue has that many, and such a `pop` returns its first item, or nothing where it is empty,
-- as `peek` does.
pub pushed-popped :
    (k : ℕ) (r : RingBuffer) (item : ℕ)
    → Reachable (2 ^ k) r
    → (queued : List ℕ) × (r.pushed ≡ r.popped ++ queued)
      × (length queued < 2 ^ k)
      × ((push (2 ^ k) r item).0 ≡ not (length queued + 1 == 2 ^ k))
      × ((pop (2 ^ k) r).0 ≡ first_of queued)
      × (peek r ≡ first_of queued)
unfolding peek
pushed-popped k r item h =
    let s = IsSafe-Reachable k r h in
    let size : length (window (2 ^ k) r.buffer r.tail s.len) ≡ s.len =
      length-window (2 ^ k) r.buffer r.tail s.len in
    let first : (if is_empty r then none else some (get_or r.buffer r.tail 0))
        ≡ first_of (window (2 ^ k) r.buffer r.tail s.len) =
      ap (λ b. if b then none else some (get_or r.buffer r.tail 0)) (is_empty-len k r s)
      ∙ first_of-window (2 ^ k) r.buffer r.tail s.len in
    (
      window (2 ^ k) r.buffer r.tail s.len,
      s.items,
      omega (arith, size, s.room),
      push-if (2 ^ k) r item ∙ ap not (is_full-len k r s ∙ ap (λ n. n + 1 == 2 ^ k) (sym size)),
      pop-if (2 ^ k) r ∙ first,
      first,
    )
