-- ===== src/Ofdm/Cell/Laws.antt =====
-- What the cell deinterleaver does to the cells.
use usrp_atsc.Common.{
  ℕ, zero, suc, ◌^◌, ◌≤◌, ◌<◌, ◌≡◌, refl, sym, ap, ◌∙◌, arith, ◌==◌, ==_iff, lt→ltb, if-true,
  if-false, Bool-cases, ◌⊎◌, inl, inr, List, [], ◌∷◌, length, resize, some,
}
use mathlib.Core.Path.{subst}
use usrp_atsc.Common.Maybe.{◌>>=◌, bind-next}
use usrp_atsc.Ofdm.Permutation.{bits_for, inverse_table, SimdTier, gather}
use usrp_atsc.Ofdm.Permutation.Forward.{IsForward}
use usrp_atsc.Ofdm.Permutation.Inverse.{inverse_table-IsForward}
use usrp_atsc.Ofdm.Permutation.Routing.{
  deinterleaved, length-deinterleaved, gather-table, deinterleaved-twice,
}
use usrp_atsc.Ofdm.Cell.{
  CellDeinterleaver, cell_compute_permutation, cell_set_config, without_table, cell_sized,
  cell_deinterleave,
}

-- The table of a deinterleaver, which may be for another size of block.
pub IsSized : CellDeinterleaver → Type 0
IsSized c =
    (c.inv_permutation ≡ [])
    ⊎ ((m : ℕ) × (m < 2 ^ 63) × IsForward (suc m) (bits_for (suc m)) c.inv_permutation)

sized :
    (c : CellDeinterleaver) (m : ℕ)
    → m < 2 ^ 63
    → IsSized c
    → (d : CellDeinterleaver) × (cell_sized c (suc m) ≡ some d)
      × IsForward (suc m) (bits_for (suc m)) d.inv_permutation
unfolding cell_sized cell_compute_permutation IsSized
sized c m small h = elim (Bool-cases (suc m == length c.inv_permutation)) [
  | inl same ↦
      let e = (==_iff (suc m) (length c.inv_permutation)).0 same in
      (
        c,
        if-true (some c) _ same,
        elim h [
          | inl empty ↦ absurd (omega (arith, e, ap length empty))
          | inr (k, b, f) ↦
              subst (λ n. IsForward n (bits_for n) c.inv_permutation) (sym f.size ∙ sym e) f
        ],
      )
  | inr other ↦
      let (t, found, f) = inverse_table-IsForward m small c.inv_permutation in
      (
        record c { inv_permutation = t; temp_buffer = resize c.temp_buffer (suc m) 0 },
        if-false (some c) _ other
            ∙ bind-next (inverse_table c.inv_permutation (suc m)) _ t _ found refl,
        f,
      )
]

IsSized-table :
    (c : CellDeinterleaver) (m : ℕ)
    → m < 2 ^ 63
    → IsForward (suc m) (bits_for (suc m)) c.inv_permutation
    → IsSized c
unfolding IsSized
IsSized-table c m small f = inr (m, small, f)

pub IsSized-none : (c : CellDeinterleaver) → c.inv_permutation ≡ [] → IsSized c
unfolding IsSized
IsSized-none c h = inl h

computed :
    (c : CellDeinterleaver) (n : ℕ)
    → n ≤ 2 ^ 63
    → (d : CellDeinterleaver) × (cell_compute_permutation c n ≡ some d) × IsSized d
unfolding cell_compute_permutation
computed c zero h = (without_table c, refl, IsSized-none (without_table c) refl)
computed c (suc m) h =
    let (t, found, f) = inverse_table-IsForward m (omega (arith, h)) c.inv_permutation in
    (
      record c { inv_permutation = t; temp_buffer = resize c.temp_buffer (suc m) 0 },
      bind-next (inverse_table c.inv_permutation (suc m)) _ t _ found refl,
      IsSized-table (record c { inv_permutation = t; temp_buffer = resize c.temp_buffer (suc m) 0 })
          m (omega (arith, h)) f,
    )

-- A configuration of up to 2 ^ 63 cells leaves a deinterleaver with its table, or with none for 0.
pub cell_set_config-IsSized :
    (c : CellDeinterleaver) (n : ℕ)
    → n ≤ 2 ^ 63
    → (d : CellDeinterleaver) × (cell_set_config c n ≡ some d) × IsSized d
unfolding cell_set_config
cell_set_config-IsSized c zero h =
    let changed = record c { num_cells = 0 } in
    (
      without_table changed,
      if-false (cell_compute_permutation changed 0) (some (without_table changed)) refl,
      IsSized-none (without_table changed) refl,
    )
cell_set_config-IsSized c (suc m) h =
    let changed = record c { num_cells = suc m } in
    let (d, found, good) = computed changed (suc m) h in
    (
      d,
      if-true (cell_compute_permutation changed (suc m)) (some (without_table changed))
            (lt→ltb 0 (suc m) (omega arith))
          ∙ found,
      good,
    )

run_once :
    (tier : SimdTier) (c : CellDeinterleaver) (cells : List ℕ) (m : ℕ)
    → m < 2 ^ 63
    → IsSized c
    → length cells ≡ suc m
    → (d : CellDeinterleaver) × (cell_deinterleave tier c cells
        ≡ some (deinterleaved (suc m) cells, d))
      × IsForward (suc m) (bits_for (suc m)) d.inv_permutation
unfolding cell_deinterleave
run_once tier c [] m small h e = absurd (omega (arith, e))
run_once tier c (x ∷ cells) m small h e =
    let (d, found, f) = sized c m small h in
    (
      record d { temp_buffer = x ∷ cells },
      bind-next (cell_sized c (length (x ∷ cells))) _ d _ (ap (cell_sized c) e ∙ found) (
          bind-next (gather tier (x ∷ cells) d.inv_permutation) _
            (deinterleaved (suc m) (x ∷ cells)) _
            (gather-table tier (x ∷ cells) d.inv_permutation m small e f) refl),
      f,
    )

-- For a deinterleaver with no table or the table of some size, and a block of up to 2 ^ 63 cells,
-- deinterleaving in place twice reads inside of the vectors and gives the block again.
pub cell_deinterleave-twice :
    (tier : SimdTier) (c : CellDeinterleaver) (cells : List ℕ) (m : ℕ)
    → m < 2 ^ 63
    → IsSized c
    → length cells ≡ suc m
    → (d : CellDeinterleaver) × ((cell_deinterleave tier c cells >>= λ r.
          cell_deinterleave tier r.1 r.0)
        ≡ some (cells, d))
cell_deinterleave-twice tier c cells m small h e =
    let (d, run, f) = run_once tier c cells m small h e in
    let (d', run', f') =
      run_once tier d (deinterleaved (suc m) cells) m small (IsSized-table d m small f)
        (length-deinterleaved (suc m) cells) in
    (
      d',
      bind-next (cell_deinterleave tier c cells) _ (deinterleaved (suc m) cells, d) _ run
          (run' ∙ ap (λ xs. some (xs, d')) (deinterleaved-twice cells m small e)),
    )
