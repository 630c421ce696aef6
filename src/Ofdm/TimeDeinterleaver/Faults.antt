-- ===== src/Ofdm/TimeDeinterleaver/Faults.antt =====
-- A change of the configuration of a `TimeDeinterleaver` that has run.
use usrp_atsc.Common.{
  ℕ, zero, suc, ◌+◌, ◌-◌, ◌≤◌, ◌<◌, ◌≡◌, refl, ap, ◌∙◌, arith, lt→ltb, if-false, if-true, false,
  List, [], ◌∷◌, length, get_elem?, resize, length-resize, none, some,
}
use usrp_atsc.Common.Maybe.{◌>>=◌, bind-fault, bind-next}
use usrp_atsc.Ofdm.TimeDeinterleaver.{
  TimeDeinterleaver, TimeDeinterleaverConfig, is_bypassed, row_delay, resize_lines, set_masks,
  init_delay_lines, set_config, row_of, delay_cell, pass_line, process_cell, process_cells,
  process_block,
}
use usrp_atsc.Ofdm.TimeDeinterleaver.Rows.{mask_for, row_of_lem}

get_elem?-beyond {ℓ} : {A : Type ℓ} (xs : List A) (i : ℕ) → length xs ≤ i → get_elem? xs i ≡ none
get_elem?-beyond [] i h = refl
get_elem?-beyond (x ∷ xs) zero h = absurd (omega arith)
get_elem?-beyond (x ∷ xs) (suc i) h = get_elem?-beyond xs i (omega arith)

-- A line that is not empty, with a write position at its end or after it.
pass_line-fault :
    (d : TimeDeinterleaver) (x row p : ℕ) (line : List ℕ)
    → get_elem? d.write_pos row ≡ some p
    → 0 < length line
    → length line ≤ p
    → pass_line d x row line ≡ none
unfolding pass_line delay_cell
pass_line-fault d x row p [] e full past = absurd (omega arith)
pass_line-fault d x row p (c ∷ line) e full past =
    bind-next (get_elem? d.write_pos row) _ p none e
      (bind-fault (get_elem? (c ∷ line) p) _ (get_elem?-beyond (c ∷ line) p past))

first_position :
    (ps : List ℕ) (n p : ℕ) → get_elem? ps 0 ≡ some p → get_elem? (resize ps (suc n) 0) 0 ≡ some p
first_position [] n p e = cc
first_position (q ∷ ps) n p e = e

-- The first line of the new configuration has the length of its delay.
first_line :
    (rows cells n : ℕ) (ls : List (List ℕ))
    → 0 < row_delay rows cells 0
    → (line : List ℕ) × (get_elem? (resize_lines rows cells 0 (resize ls (suc n) [])) 0 ≡ some line)
      × (length line ≡ row_delay rows cells 0)
unfolding resize_lines
first_line rows cells n [] h = (
  resize [] (row_delay rows cells 0) 0,
  ap some (if-true (resize [] (row_delay rows cells 0) 0) [] (lt→ltb 0 (row_delay rows cells 0) h)),
  length-resize [] (row_delay rows cells 0) 0,
)
first_line rows cells n (l ∷ ls) h = (
  resize l (row_delay rows cells 0) 0,
  ap some (if-true (resize l (row_delay rows cells 0) 0) [] (lt→ltb 0 (row_delay rows cells 0) h)),
  length-resize l (row_delay rows cells 0) 0,
)

-- What `set_config` makes where the configuration delays.
abbrev changed : TimeDeinterleaver → TimeDeinterleaverConfig → TimeDeinterleaver
changed d config =
    let rows = config.depth + 1 in
    record d {
      config = config;
      num_rows = rows;
      row_mask = mask_for rows;
      delay_lines = resize_lines rows config.cells_per_block 0 (resize d.delay_lines rows []);
      delay_masks = set_masks rows config.cells_per_block 0 (resize d.delay_masks rows 0);
      write_pos = resize d.write_pos rows 0;
      settling_blocks = rows - 1;
      blocks_processed = 0;
    }

module _ (d : TimeDeinterleaver) (config : TimeDeinterleaverConfig) (x p : ℕ) (xs : List ℕ)
    (active : is_bypassed config ≡ false) (byte : config.depth < 256)
    (at : get_elem? d.write_pos 0 ≡ some p)
    (delays : 0 < row_delay (config.depth + 1) config.cells_per_block 0)
    (past : row_delay (config.depth + 1) config.cells_per_block 0 ≤ p) where
  set_config-active : set_config d config ≡ changed d config
  unfolding set_config init_delay_lines
  set_config-active = if-false _ (changed d config) active

  row_of-first : row_of (changed d config) 0 ≡ 0
  unfolding is_bypassed
  row_of-first =
      row_of_lem (changed d config) 0 (ground (arith, active)) (omega (arith, byte)) refl
      ∙ omega arith

  process_cell-changed : process_cell (changed d config) x 0 ≡ none
  unfolding process_cell
  process_cell-changed =
      let rows = config.depth + 1 in
      let more : rows ≡ suc config.depth = omega arith in
      let (line, e, l) = first_line rows config.cells_per_block config.depth d.delay_lines delays in
      ap
        (λ k.
          get_elem? (changed d config).delay_lines k >>= λ ln. pass_line (changed d config) x k ln)
        row_of-first
      ∙ bind-next (get_elem? (changed d config).delay_lines 0) _ line none
          (ap
              (λ n.
                get_elem? (resize_lines rows config.cells_per_block 0 (resize d.delay_lines n []))
                  0)
              more
            ∙ e)
          (pass_line-fault (changed d config) x 0 p line
            (ap (λ n. get_elem? (resize d.write_pos n 0) 0) more
              ∙ first_position d.write_pos config.depth p at)
            (omega (arith, delays, l)) (omega (arith, past, l)))

  -- Where the new configuration delays (its depth a byte), the write position of row 0 is `p`, and the
  -- new delay of that row is positive and at most `p`, the first block that is not empty and comes after
  -- `set_config` makes `process_cell` read its delay line out of bounds.
  pub process_block-set_config : process_block (set_config d config) (x ∷ xs) ≡ none
  unfolding process_block process_cells
  process_block-set_config =
      ap (λ t. process_block t (x ∷ xs)) set_config-active
      ∙ if-false _ _ active
      ∙ bind-fault (process_cells (changed d config) 0 (x ∷ xs)) _
          (bind-fault (process_cell (changed d config) x 0) _ process_cell-changed)
