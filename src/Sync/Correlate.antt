-- ===== src/Sync/Correlate.antt =====
-- `FrameSync::init_preamble_reference` and `FrameSync::correlate_preamble`.
use usrp_atsc.Common.{ℕ, zero, suc, ◌+◌, ◌*◌, ◌%◌, ltb, if◌then◌else◌, List, [], ◌∷◌, length, drop}
use usrp_atsc.Sync.{FloatOps}

module _ {D : Type 0} (ops : FloatOps D) where
  -- The `k`-th value of the reference.
  unfoldable pub reference_sample : ℕ → D × D
  reference_sample k =
      let phase =
        ops.div
          (ops.mul (ops.mul (ops.decimal 2 0) (ops.decimal 314159265358979 14))
            (ops.of_nat (k * 7 % 13)))
          (ops.decimal 13 0) in
      let half = ops.to_float (ops.decimal 5 1) in
      (
        ops.to_float (ops.mul (ops.to_float (ops.cos phase)) half),
        ops.to_float (ops.mul (ops.to_float (ops.sin phase)) half),
      )

  -- The loop of `init_preamble_reference`, from `k` on with `rounds` left.
  unfoldable pub reference_loop : ℕ → ℕ → List (D × D)
  unfolding reference_sample
  reference_loop zero k = []
  reference_loop (suc rounds) k = reference_sample k ∷ reference_loop rounds (k + 1)

  -- The four sums of `correlate_preamble`.
  pub record Sums : Type 0 where
    pub corr_re : D
    pub corr_im : D
    pub sig_power : D
    pub ref_power : D

  -- The body of its loop.
  unfoldable pub add_sample : Sums → D × D → D × D → Sums
  add_sample s sig ref = record {
    corr_re = ops.add s.corr_re (ops.add (ops.mul sig.0 ref.0) (ops.mul sig.1 ref.1));
    corr_im = ops.add s.corr_im (ops.sub (ops.mul sig.1 ref.0) (ops.mul sig.0 ref.1));
    sig_power = ops.add s.sig_power (ops.add (ops.mul sig.0 sig.0) (ops.mul sig.1 sig.1));
    ref_power = ops.add s.ref_power (ops.add (ops.mul ref.0 ref.0) (ops.mul ref.1 ref.1));
  }

  -- The loop: it ends with the shorter of the two sequences.
  unfoldable pub correlate_loop : List (D × D) → List (D × D) → Sums → Sums
  unfolding add_sample
  correlate_loop [] refs s = s
  correlate_loop (sig ∷ sigs) [] s = s
  correlate_loop (sig ∷ sigs) (ref ∷ refs) s = correlate_loop sigs refs (add_sample s sig ref)

  -- `correlate_preamble`
  unfoldable pub correlate_preamble : List (D × D) → List (D × D) → ℕ → D
  unfolding correlate_loop
  correlate_preamble preamble_ref symbols offset =
      let zero_value = ops.decimal 0 0 in
      let s = correlate_loop (drop offset symbols) preamble_ref (record {
        corr_re = zero_value;
        corr_im = zero_value;
        sig_power = zero_value;
        ref_power = zero_value;
      }) in
      let norm = ops.sqrt (ops.mul s.sig_power s.ref_power) in
      if ltb (length symbols) (offset + length preamble_ref)
      then zero_value
      else if ops.less norm (ops.decimal 1 10)
      then zero_value
      else ops.div (ops.sqrt (ops.add (ops.mul s.corr_re s.corr_re) (ops.mul s.corr_im s.corr_im)))
          norm
