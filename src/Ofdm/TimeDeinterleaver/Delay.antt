-- ===== src/Ofdm/TimeDeinterleaver/Delay.antt =====
-- What `TimeDeinterleaver` does to the cells of a row, seen as a queue.
use usrp_atsc.Common.{
  ℕ, zero, suc, ◌%◌, ◌≤◌, ◌<◌, ◌≡◌, ◌≢◌, refl, sym, ap, ◌∙◌, arith, ◌==◌, ==_iff, ◌⊎◌, inl, inr,
  List, [], ◌∷◌, ◌++◌, length, get_elem?, get_or, set, length-set, get_or-set_self, get_or-set_ne,
  some, Bool-cases,
}
use mathlib.Core.Path.{subst}
use native.Mathlib.Nat.{mod-lt}
use usrp_atsc.Common.Maybe.{◌>>=◌, bind-next}
use usrp_atsc.Ofdm.TimeDeinterleaver.{TimeDeinterleaver, delay_cell, pass_line, process_cell}
use usrp_atsc.Ofdm.TimeDeinterleaver.Rows.{mask_for, row_of_lem}
use usrp_atsc.Ofdm.TimeDeinterleaver.Queue.{queue, next_pos, delay-queue}

-- The queue of a row.
abbrev pub row_queue : TimeDeinterleaver → ℕ → List ℕ
row_queue d r = queue (get_or d.delay_lines r []) (get_or d.write_pos r 0)

abbrev IsPlaced : List ℕ → ℕ → Type 0
IsPlaced line pos = (line ≡ []) ⊎ (pos < length line)

-- The state of a deinterleaver that delays.
pub record IsFormed (d : TimeDeinterleaver) : Type 0 where
  pub two : 2 ≤ d.num_rows
  pub small : d.num_rows < 257
  pub mask : d.row_mask ≡ mask_for d.num_rows
  pub lines : length d.delay_lines ≡ d.num_rows
  pub positions : length d.write_pos ≡ d.num_rows
  pub placed :
      (r : ℕ) → r < d.num_rows → IsPlaced (get_or d.delay_lines r []) (get_or d.write_pos r 0)

-- What a cell that goes into row `row` does to a deinterleaver.
pub record Passes (d : TimeDeinterleaver) (row x y : ℕ) (d' : TimeDeinterleaver) : Type 0 where
  pub formed : IsFormed d'
  pub rows_same : d'.num_rows ≡ d.num_rows
  pub config_same : d'.config ≡ d.config
  pub here : row_queue d row ++ x ∷ [] ≡ y ∷ row_queue d' row
  pub there : (r : ℕ) → r ≢ row → row_queue d' r ≡ row_queue d r

get_elem?-get_or {ℓ} :
    {A : Type ℓ} (xs : List A) (i : ℕ) (d : A)
    → i < length xs
    → get_elem? xs i ≡ some (get_or xs i d)
get_elem?-get_or [] i d h = absurd (omega arith)
get_elem?-get_or (x ∷ xs) zero d h = refl
get_elem?-get_or (x ∷ xs) (suc i) d h = get_elem?-get_or xs i d (omega arith)

queue-nil : (pos : ℕ) → queue [] pos ≡ []
queue-nil zero = refl
queue-nil (suc pos) = refl

-- The deinterleaver after a cell has gone into a line.
abbrev written : TimeDeinterleaver → ℕ → ℕ → List ℕ → ℕ → TimeDeinterleaver
written d x row line pos = record d {
  delay_lines = set d.delay_lines row (set line pos x);
  write_pos = set d.write_pos row (next_pos pos line);
}

module _ (d : TimeDeinterleaver) (x row : ℕ) (line : List ℕ) (f : IsFormed d)
    (below : row < d.num_rows) (e : get_or d.delay_lines row [] ≡ line)
    (inside : get_or d.write_pos row 0 < length line) where
  d' : TimeDeinterleaver
  d' = written d x row line (get_or d.write_pos row 0)

  line_now :
      get_or (set d.delay_lines row (set line (get_or d.write_pos row 0) x)) row []
      ≡ set line (get_or d.write_pos row 0) x
  line_now = get_or-set_self d.delay_lines row _ [] (omega (arith, f.lines))

  pos_now :
      get_or (set d.write_pos row (next_pos (get_or d.write_pos row 0) line)) row 0
      ≡ next_pos (get_or d.write_pos row 0) line
  pos_now = get_or-set_self d.write_pos row _ 0 (omega (arith, f.positions))

  queue_there : (r : ℕ) → r ≢ row → row_queue d' r ≡ row_queue d r
  unfolding d'
  queue_there r h =
      ap
        (λ l. queue l (get_or (set d.write_pos row (next_pos (get_or d.write_pos row 0) line)) r 0))
        (get_or-set_ne d.delay_lines row r (set line (get_or d.write_pos row 0) x) []
          (λ q. h (sym q)))
      ∙ ap (queue (get_or d.delay_lines r [])) (
          get_or-set_ne d.write_pos row r (next_pos (get_or d.write_pos row 0) line) 0
            (λ q. h (sym q)))

  IsPlaced-here :
      IsPlaced (set line (get_or d.write_pos row 0) x) (next_pos (get_or d.write_pos row 0) line)
  IsPlaced-here = inr (ground (arith, length-set line (get_or d.write_pos row 0) x))

  IsPlaced-all :
      (r : ℕ) → r < d.num_rows → IsPlaced (get_or d'.delay_lines r []) (get_or d'.write_pos r 0)
  unfolding d'
  IsPlaced-all r h = elim (Bool-cases (r == row)) [
    | inl same ↦
        let q = (==_iff r row).0 same in
        subst (λ k. IsPlaced (get_or d'.delay_lines k []) (get_or d'.write_pos k 0)) (sym q)
          (subst (λ l. IsPlaced l (get_or d'.write_pos row 0)) (sym line_now)
            (subst (IsPlaced (set line (get_or d.write_pos row 0) x)) (sym pos_now) IsPlaced-here))
    | inr other ↦
        let ne : r ≢ row = ground arith in
        subst (λ l. IsPlaced l (get_or d'.write_pos r 0))
          (sym (get_or-set_ne d.delay_lines row r _ [] (λ q. ne (sym q))))
          (subst (IsPlaced (get_or d.delay_lines r []))
            (sym (get_or-set_ne d.write_pos row r _ 0 (λ q. ne (sym q)))) (f.placed r h))
  ]

  delay_cell-delays :
      (r : ℕ × TimeDeinterleaver) × (delay_cell d x row line ≡ some r) × Passes d row x r.0 r.1
  unfolding delay_cell d'
  delay_cell-delays =
      let (y, found) = delay-queue line (get_or d.write_pos row 0) x inside in
      (
        (y, d'),
        bind-next (get_elem? d.write_pos row) _ (get_or d.write_pos row 0) _
            (get_elem?-get_or d.write_pos row 0 (omega (arith, f.positions)))
            (bind-next (get_elem? line (get_or d.write_pos row 0)) _ y _ found.0 refl),
        record {
          formed = record {
            two = f.two;
            small = f.small;
            mask = f.mask;
            lines = length-set d.delay_lines row _ ∙ f.lines;
            positions = length-set d.write_pos row _ ∙ f.positions;
            placed = IsPlaced-all;
          };
          rows_same = refl;
          config_same = refl;
          here =
              ap (λ l. queue l (get_or d.write_pos row 0) ++ x ∷ []) e
              ∙ found.1
              ∙ ap (λ l. y ∷ queue l (next_pos (get_or d.write_pos row 0) line)) (sym line_now)
              ∙ ap (λ p. y ∷ queue (get_or d'.delay_lines row []) p) (sym pos_now);
          there = queue_there;
        },
      )

not_empty : (c : ℕ) (line : List ℕ) (pos : ℕ) → IsPlaced (c ∷ line) pos → pos < length (c ∷ line)
not_empty c line pos (inl h) = cc
not_empty c line pos (inr h) = h

pass_line-delays :
    (d : TimeDeinterleaver) (x row : ℕ) (line : List ℕ)
    → IsFormed d
    → row < d.num_rows
    → get_or d.delay_lines row [] ≡ line
    → (r : ℕ × TimeDeinterleaver) × (pass_line d x row line ≡ some r) × Passes d row x r.0 r.1
unfolding pass_line
pass_line-delays d x row [] f below e = (
  (x, d),
  refl,
  record {
    formed = f;
    rows_same = refl;
    config_same = refl;
    here = ap (λ l. l ++ x ∷ []) empty ∙ ap (◌∷◌ x) (sym empty);
    there = λ r h. refl;
  },
)
  where
    empty : row_queue d row ≡ []
    empty = ap (λ l. queue l (get_or d.write_pos row 0)) e ∙ queue-nil (get_or d.write_pos row 0)
pass_line-delays d x row (c ∷ line) f below e = delay_cell-delays d x row (c ∷ line) f below e (
    not_empty c line (get_or d.write_pos row 0)
      (subst (λ l. IsPlaced l (get_or d.write_pos row 0)) e (f.placed row below)))

-- A cell goes into the row of its number.
pub process_cell-delays :
    (d : TimeDeinterleaver) (x i : ℕ)
    → IsFormed d
    → (r : ℕ × TimeDeinterleaver) × (process_cell d x i ≡ some r)
      × Passes d (i % d.num_rows) x r.0 r.1
unfolding process_cell
process_cell-delays d x i f =
    let row = i % d.num_rows in
    let below : row < d.num_rows = mod-lt i (omega (arith, f.two)) in
    let at = row_of_lem d i f.two f.small f.mask in
    let line = get_or d.delay_lines row [] in
    let (r, e, p) = pass_line-delays d x row line f below refl in
    (
      r,
      ap (λ k. get_elem? d.delay_lines k >>= λ l. pass_line d x k l) at
          ∙ bind-next (get_elem? d.delay_lines row) (λ l. pass_line d x row l) line (some r)
              (get_elem?-get_or d.delay_lines row [] (omega (arith, f.lines))) e,
      p,
    )
