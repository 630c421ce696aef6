-- ===== src/Ofdm/TimeDeinterleaver/Queue.antt =====
-- A line of `TimeDeinterleaver` with its write position, as a queue.
use usrp_atsc.Common.{
  ℕ, zero, suc, ◌+◌, ◌<◌, ◌≡◌, refl, sym, ap, ◌∙◌, arith, ltb, if◌then◌else◌, List, [], ◌∷◌, ◌++◌,
  append-nil, append_assoc, length, length-append, get_elem?, set, take, drop, take-length-append,
  drop-length-append, some,
}
use mathlib.Core.Path.{subst}

-- The cells in a line, the oldest first.
abbrev pub queue : List ℕ → ℕ → List ℕ
queue line pos = drop pos line ++ take pos line

abbrev pub next_pos : ℕ → List ℕ → ℕ
next_pos pos line = if ltb (pos + 1) (length line) then pos + 1 else 0

-- A line, split at its write position.
record Split (line : List ℕ) (pos : ℕ) : Type 0 where
  before : List ℕ
  oldest : ℕ
  after : List ℕ
  joined : line ≡ before ++ oldest ∷ after
  place : length before ≡ pos

Split-below : (line : List ℕ) (pos : ℕ) → pos < length line → Split line pos
Split-below [] pos h = absurd (omega arith)
Split-below (c ∷ line) zero h = record {
  before = [];
  oldest = c;
  after = line;
  joined = refl;
  place = refl;
}
Split-below (c ∷ line) (suc pos) h =
    let s = Split-below line pos (omega arith) in
    record {
      before = c ∷ s.before;
      oldest = s.oldest;
      after = s.after;
      joined = ap (◌∷◌ c) s.joined;
      place = ap suc s.place;
    }

get_elem?-middle : (a b : List ℕ) (o : ℕ) → get_elem? (a ++ o ∷ b) (length a) ≡ some o
get_elem?-middle [] b o = refl
get_elem?-middle (x ∷ a) b o = get_elem?-middle a b o

set-middle : (a b : List ℕ) (o x : ℕ) → set (a ++ o ∷ b) (length a) x ≡ a ++ x ∷ b
set-middle [] b o x = refl
set-middle (y ∷ a) b o x = ap (◌∷◌ y) (set-middle a b o x)

-- The queue of a line that is written, after its write position has moved.
queue-next :
    (a b : List ℕ) (x : ℕ)
    → queue (a ++ x ∷ b) (next_pos (length a) (a ++ x ∷ b)) ≡ (b ++ a) ++ x ∷ []
queue-next a [] x = ap (queue (a ++ x ∷ [])) wrapped ∙ append-nil (a ++ x ∷ [])
  where
    wrapped : next_pos (length a) (a ++ x ∷ []) ≡ 0
    wrapped = ground (arith, length-append a (x ∷ []))
queue-next a (y ∷ b) x =
    ap (queue (a ++ x ∷ y ∷ b)) moved
    ∙ ap (λ l. queue l (length (a ++ x ∷ []))) (sym (append_assoc a (x ∷ []) (y ∷ b)))
    ∙ ap (λ l. l ++ take (length (a ++ x ∷ [])) ((a ++ x ∷ []) ++ y ∷ b))
        (drop-length-append (a ++ x ∷ []) (y ∷ b))
    ∙ ap (λ l. (y ∷ b) ++ l) (take-length-append (a ++ x ∷ []) (y ∷ b))
    ∙ sym (append_assoc (y ∷ b) a (x ∷ []))
  where
    moved : next_pos (length a) (a ++ x ∷ y ∷ b) ≡ length (a ++ x ∷ [])
    moved = ground (arith, length-append a (x ∷ y ∷ b), length-append a (x ∷ []))

-- What a round of the delay does to the queue.
abbrev pub Delays : List ℕ → ℕ → ℕ → ℕ → Type 0
Delays line pos x y =
    (get_elem? line pos ≡ some y)
    × (queue line pos ++ x ∷ [] ≡ y ∷ queue (set line pos x) (next_pos pos line))

delay-middle : (a b : List ℕ) (o x : ℕ) → Delays (a ++ o ∷ b) (length a) x o
delay-middle a b o x = (
  get_elem?-middle a b o,
  ap (λ l. (l ++ take (length a) (a ++ o ∷ b)) ++ x ∷ []) (drop-length-append a (o ∷ b))
      ∙ ap (λ l. o ∷ ((b ++ l) ++ x ∷ [])) (take-length-append a (o ∷ b))
      ∙ ap (◌∷◌ o) (sym (queue-next a b x))
      ∙ ap (λ n. o ∷ queue (a ++ x ∷ b) (if ltb (length a + 1) n then length a + 1 else 0)) same
      ∙ ap (λ l. o ∷ queue l (next_pos (length a) (a ++ o ∷ b))) (sym (set-middle a b o x)),
)
  where
    same : length (a ++ x ∷ b) ≡ length (a ++ o ∷ b)
    same = omega (arith, length-append a (x ∷ b), length-append a (o ∷ b))

pub delay-queue : (line : List ℕ) (pos x : ℕ) → pos < length line → (y : ℕ) × Delays line pos x y
delay-queue line pos x h =
    let s = Split-below line pos h in
    (
      s.oldest,
      subst (λ l. Delays l pos x s.oldest) (sym s.joined)
          (subst (λ p. Delays (s.before ++ s.oldest ∷ s.after) p x s.oldest) s.place
            (delay-middle s.before s.after s.oldest x)),
    )
