-- ===== src/Ofdm/TimeDeinterleaver/Blocks.antt =====
-- `TimeDeinterleaver` over blocks, from the constructor on.
use usrp_atsc.Common.{
  ℕ, suc, ◌+◌, ◌%◌, ◌≡◌, ◌≢◌, refl, sym, ap, ◌∙◌, arith, ◌==◌, ==_iff, if◌then◌else◌, if-false,
  if-true, false, inl, inr, List, [], ◌∷◌, ◌++◌, append-nil, append_assoc, length, map, Option,
  some, Bool-cases,
}
use mathlib.Core.Path.{subst, ap₂}
use usrp_atsc.Common.Maybe.{◌>>=◌, bind-next}
use usrp_atsc.Ofdm.TimeDeinterleaver.{
  TimeDeinterleaver, is_bypassed, process_cell, process_cells, process_block, count_block,
}
use usrp_atsc.Ofdm.TimeDeinterleaver.Delay.{IsFormed, Passes, row_queue, process_cell-delays}

-- The cells of a block that go into row `r`, from cell `i` on, with `rows` rows.
abbrev pub row_cells : ℕ → ℕ → ℕ → List ℕ → List ℕ
row_cells rows r i [] = []
row_cells rows r i (x ∷ xs) =
    let rest = row_cells rows r (i + 1) xs in if i % rows == r then x ∷ rest else rest

-- A deinterleaver with `rows` rows that delays.
pub record IsDelaying (rows : ℕ) (d : TimeDeinterleaver) : Type 0 where
  pub formed : IsFormed d
  pub rows_are : d.num_rows ≡ rows
  pub active : is_bypassed d.config ≡ false

-- What cells that go through do to the queue of every row.
abbrev Through : ℕ → TimeDeinterleaver → ℕ → List ℕ → List ℕ → TimeDeinterleaver → Type 0
Through rows d i xs ys d' =
    (r : ℕ) → row_queue d r ++ row_cells rows r i xs ≡ row_cells rows r i ys ++ row_queue d' r

step-Through :
    (rows i x y : ℕ) (xs ys : List ℕ) (d d' d'' : TimeDeinterleaver)
    → Passes d (i % rows) x y d'
    → Through rows d' (i + 1) xs ys d''
    → Through rows d i (x ∷ xs) (y ∷ ys) d''
step-Through rows i x y xs ys d d' d'' p later r =
    let ins = row_cells rows r (i + 1) xs in
    let outs = row_cells rows r (i + 1) ys in
    elim (Bool-cases (i % rows == r)) [
      | inl here ↦
          let e = (==_iff (i % rows) r).0 here in
          let entered : row_queue d r ++ x ∷ [] ≡ y ∷ row_queue d' r =
            subst (λ k. row_queue d k ++ x ∷ [] ≡ y ∷ row_queue d' k) e p.here in
          ap (λ l. row_queue d r ++ l) (if-true (x ∷ ins) ins here)
          ∙ sym (append_assoc (row_queue d r) (x ∷ []) ins)
          ∙ ap (λ l. l ++ ins) entered
          ∙ ap (◌∷◌ y) (later r)
          ∙ ap (λ l. l ++ row_queue d'' r) (sym (if-true (y ∷ outs) outs here))
      | inr there ↦
          let ne : r ≢ i % rows = ground (arith, ==_iff (i % rows) r) in
          ap (λ l. row_queue d r ++ l) (if-false (x ∷ ins) ins there)
          ∙ ap (λ l. l ++ ins) (sym (p.there r ne))
          ∙ later r
          ∙ ap (λ l. l ++ row_queue d'' r) (sym (if-false (y ∷ outs) outs there))
    ]

cells-Through :
    (rows : ℕ) (d : TimeDeinterleaver) (i : ℕ) (xs : List ℕ)
    → IsDelaying rows d
    → (s : List ℕ × TimeDeinterleaver) × (process_cells d i xs ≡ some s)
      × (length s.0 ≡ length xs)
      × IsDelaying rows s.1
      × Through rows d i xs s.0 s.1
unfolding process_cells
cells-Through rows d i [] h = (([], d), refl, refl, h, λ r. append-nil (row_queue d r))
cells-Through rows d i (x ∷ xs) h =
    let (r, e, p) = process_cell-delays d x i h.formed in
    let next : IsDelaying rows r.1 = record {
      formed = p.formed;
      rows_are = p.rows_same ∙ h.rows_are;
      active = ap is_bypassed p.config_same ∙ h.active;
    } in
    let (s, e', l, h', t) = cells-Through rows r.1 (i + 1) xs next in
    (
      (r.0 ∷ s.0, s.1),
      bind-next (process_cell d x i) _ r _ e
          (bind-next (process_cells r.1 (i + 1) xs) _ s _ e' refl),
      ap suc l,
      h',
      step-Through rows i x r.0 xs s.0 d r.1 s.1
          (subst (λ n. Passes d (i % n) x r.0 r.1) h.rows_are p) t,
    )

-- A sequence of blocks.
unfoldable pub process_blocks :
    TimeDeinterleaver → List (List ℕ) → Option (List (List ℕ) × TimeDeinterleaver)
unfolding process_block
process_blocks d [] = some ([], d)
process_blocks d (b ∷ bs) = do
  r ← process_block d b
  s ← process_blocks r.1 bs
  some (r.0 ∷ s.0, s.1)

-- The cells of all blocks that go into row `r`.
abbrev pub row_stream : ℕ → ℕ → List (List ℕ) → List ℕ
row_stream rows r [] = []
row_stream rows r (b ∷ bs) = row_cells rows r 0 b ++ row_stream rows r bs

counted : (rows : ℕ) (d : TimeDeinterleaver) → IsDelaying rows d → IsDelaying rows (count_block d)
counted rows d h = record {
  formed = record {
    two = h.formed.two;
    small = h.formed.small;
    mask = h.formed.mask;
    lines = h.formed.lines;
    positions = h.formed.positions;
    placed = h.formed.placed;
  };
  rows_are = h.rows_are;
  active = h.active;
}

block-Through :
    (rows : ℕ) (d : TimeDeinterleaver) (b : List ℕ)
    → IsDelaying rows d
    → (s : List ℕ × TimeDeinterleaver) × (process_block d b ≡ some s)
      × (length s.0 ≡ length b)
      × IsDelaying rows s.1
      × Through rows d 0 b s.0 s.1
unfolding process_block process_cells
block-Through rows d [] h = (([], d), refl, refl, h, λ r. append-nil (row_queue d r))
block-Through rows d (x ∷ xs) h =
    let (s, e, l, h', t) = cells-Through rows d 0 (x ∷ xs) h in
    (
      (s.0, count_block s.1),
      if-false _ _ h.active ∙ bind-next (process_cells d 0 (x ∷ xs)) _ s _ e refl,
      l,
      counted rows s.1 h',
      t,
    )

pub blocks-Through :
    (rows : ℕ) (d : TimeDeinterleaver) (bs : List (List ℕ))
    → IsDelaying rows d
    → (s : List (List ℕ) × TimeDeinterleaver) × (process_blocks d bs ≡ some s)
      × (map length s.0 ≡ map length bs)
      × ((r : ℕ) → row_queue d r ++ row_stream rows r bs ≡ row_stream rows r s.0 ++ row_queue s.1 r)
unfolding process_blocks process_block
blocks-Through rows d [] h = (([], d), refl, refl, λ r. append-nil (row_queue d r))
blocks-Through rows d (b ∷ bs) h =
    let (s, e, l, h', t) = block-Through rows d b h in
    let (u, e', l', t') = blocks-Through rows s.1 bs h' in
    (
      (s.0 ∷ u.0, u.1),
      bind-next (process_block d b) _ s _ e (bind-next (process_blocks s.1 bs) _ u _ e' refl),
      ap₂ (λ n ns. n ∷ ns) l l',
      λ r.
          sym (append_assoc (row_queue d r) (row_cells rows r 0 b) (row_stream rows r bs))
          ∙ ap (λ l. l ++ row_stream rows r bs) (t r)
          ∙ append_assoc (row_cells rows r 0 s.0) (row_queue s.1 r) (row_stream rows r bs)
          ∙ ap (λ l. row_cells rows r 0 s.0 ++ l) (t' r)
          ∙ sym (append_assoc (row_cells rows r 0 s.0) (row_stream rows r u.0) (row_queue u.1 r)),
    )
