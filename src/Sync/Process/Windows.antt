-- ===== src/Sync/Process/Windows.antt =====
-- Where `FrameSync` looks for the preamble: when the coarse search ends, and what a window that is
-- shorter than the preamble gives.
use usrp_atsc.Common.{
  ℕ, ◌^◌, ◌%◌, zero, suc, ◌+◌, ◌-◌, ◌*◌, ◌/◌, ◌<◌, ◌≤◌, ◌≡◌, refl, ap, ◌∙◌, arith, leb,
  if◌then◌else◌, ◌&&◌, ltb, if-false, Bool, true, false, List, [], length, min, Option, none, some,
}
use usrp_atsc.Common.Maybe.{◌>>=◌, IsDefined, bind-IsDefined, if-IsDefined}
use usrp_atsc.Sync.{FloatOps, FrameSyncState, FrameSync, FrameSyncConfig, FrameEvent, add64}
use usrp_atsc.Sync.Correlate.{correlate_preamble}
use usrp_atsc.Sync.Process.{
  search_loop, best_loop, acquire_with, acquire_range, boundary_inside, acquire_miss, handle,
  transition_state, enter_state, same_state, handle_searching, handle_acquiring, process_symbols,
}

-- The end of `process`.
abbrev after :
    {D : Type 0}
    → List (D × D)
    → FrameSync D × List (FrameEvent D)
    → Option (FrameSync D × List (FrameEvent D))
after symbols r =
    some (record (r.0) { sample_counter = add64 r.0.sample_counter (length symbols) }, r.1)

module _ {D : Type 0} (ops : FloatOps D) where
  search-IsDefined :
      (fuel : ℕ) (config : FrameSyncConfig D) (preamble_ref symbols : List (D × D)) (offset : ℕ)
      → 4 ≤ config.frame_params.fft_size
      → 0 < fuel
      → length symbols + 1 < offset + fuel
      → IsDefined (search_loop ops fuel config preamble_ref symbols offset)
  unfolding search_loop
  search-IsDefined zero config preamble_ref symbols offset step some_fuel enough =
      absurd (omega arith)
  search-IsDefined (suc fuel) config preamble_ref symbols offset step some_fuel enough =
      if-IsDefined (leb (offset + length preamble_ref) (length symbols)) _ _
        (λ inside.
          if-IsDefined
            (ops.at_least (correlate_preamble ops preamble_ref symbols offset)
              config.detection_threshold)
            _ _ (λ hit. (_, refl))
            (λ miss.
              search-IsDefined fuel config preamble_ref symbols
                (offset + config.frame_params.fft_size / 4) step (ground arith) (ground arith)))
        (λ outside. (_, refl))

  -- More rounds than the bound leaves give the search for the best offset nothing more.
  best-enough :
      (fuel : ℕ) (preamble_ref symbols : List (D × D)) (reach bound offset : ℕ) (best : ℕ × D)
      → bound ≤ offset + fuel
      → best_loop ops (suc fuel) preamble_ref symbols reach bound offset best
        ≡ best_loop ops fuel preamble_ref symbols reach bound offset best
  unfolding best_loop
  best-enough zero preamble_ref symbols reach bound offset best h = ground arith
  best-enough (suc fuel) preamble_ref symbols reach bound offset best h =
      ap (λ r. if leb (offset + length preamble_ref) reach && ltb offset bound then r else best)
        (best-enough fuel preamble_ref symbols reach bound (offset + 1)
          (if ops.less best.1 (correlate_preamble ops preamble_ref symbols offset)
            then (offset, correlate_preamble ops preamble_ref symbols offset)
            else best)
          (omega arith))

  -- `process` returns, whatever the state and the symbols, when the FFT size is 4 or more, so that the
  -- coarse search advances.
  pub process-IsDefined :
      (d : FrameSync D) (symbols : List (D × D))
      → 4 ≤ d.config.frame_params.fft_size
      → IsDefined (process_symbols ops d symbols)
  unfolding process_symbols handle handle_searching
  process-IsDefined d symbols step =
      bind-IsDefined (handle ops d.state d symbols) _ (handled d.state) λ r. (_, refl)
    where
      handled : (s : FrameSyncState) → IsDefined (handle ops s d symbols)
      handled FrameSyncState.searching =
          bind-IsDefined
            (search_loop ops (suc (suc (length symbols))) d.config d.preamble_ref symbols 0) _
            (search-IsDefined (suc (suc (length symbols))) d.config d.preamble_ref symbols 0 step
              (omega arith) (omega arith))
            λ o. (_, refl)
      handled FrameSyncState.acquiring = (_, refl)
      handled FrameSyncState.locked = (_, refl)
      handled FrameSyncState.holdover = (_, refl)

  -- Below 4 the search does not advance: where the preamble does not correlate at the first offset, no
  -- number of rounds ends the loop.
  pub search-endless :
      (fuel : ℕ) (config : FrameSyncConfig D) (preamble_ref symbols : List (D × D))
      → config.frame_params.fft_size < 4
      → length preamble_ref ≤ length symbols
      → ops.at_least (correlate_preamble ops preamble_ref symbols 0) config.detection_threshold
        ≡ false
      → search_loop ops fuel config preamble_ref symbols 0 ≡ none
  unfolding search_loop
  search-endless zero config preamble_ref symbols small fits miss = refl
  search-endless (suc fuel) config preamble_ref symbols small fits miss =
      ground (arith, search-endless fuel config preamble_ref symbols small fits miss)

  best-none :
      (fuel : ℕ) (preamble_ref symbols : List (D × D)) (reach bound offset : ℕ) (best : ℕ × D)
      → reach < offset + length preamble_ref
      → best_loop ops fuel preamble_ref symbols reach bound offset best ≡ best
  unfolding best_loop
  best-none zero preamble_ref symbols reach bound offset best h = refl
  best-none (suc fuel) preamble_ref symbols reach bound offset best h = ground arith

  short_best :
      (d : FrameSync D) (symbols : List (D × D))
      → boundary_inside ops d (length symbols) ≡ true
      → 2 * (d.config.search_window / 2) < length d.preamble_ref
      → best_loop ops
          (length symbols)
          d.preamble_ref
          symbols
          (acquire_range ops d (length symbols)).1
          (length symbols)
          (acquire_range ops d (length symbols)).0
          (0, ops.decimal 0 0)
        ≡ (0, ops.decimal 0 0)
  short_best d symbols inside window =
      let off = d.expected_boundary - d.sample_counter in
      let half = d.config.search_window / 2 in
      let n = length symbols in
      let range : Bool → ℕ × ℕ = λ b. if b then (off - half, min (off + half) n) else (0, n) in
      ap
        (λ b. best_loop ops n d.preamble_ref symbols (range b).1 n (range b).0 (0, ops.decimal 0 0))
        inside
      ∙ best-none n d.preamble_ref symbols (min (off + half) n) n (off - half) (0, ops.decimal 0 0)
          (omega arith)

  miss-explicit :
      (d : FrameSync D)
      → d.state ≡ FrameSyncState.acquiring
      → acquire_miss ops d ≡ (
          if leb d.config.lock_loss_count ((d.consecutive_misses + 1) % 2 ^ 64)
          then record d {
            state = FrameSyncState.searching;
            consecutive_hits = 0;
            consecutive_misses = 0;
            confidence = ops.decimal 0 0;
          }
          else record d { consecutive_misses = (d.consecutive_misses + 1) % 2 ^ 64 })
  unfolding transition_state enter_state same_state
  miss-explicit d state = ground (arith, state)

  -- In the state ACQUIRING, with the expected boundary inside of the buffer, a search window that is
  -- shorter than the preamble and a threshold above 0, `process` finds nothing, whatever the symbols
  -- are. When the misses, with this one, reach `lock_loss_count`, it goes back to SEARCHING with hits,
  -- misses and confidence at 0; otherwise it only counts the miss. The sample counter advances by
  -- the length of the buffer, and the callback is not called.
  pub process-short_window :
      (d : FrameSync D) (symbols : List (D × D))
      → d.state ≡ FrameSyncState.acquiring
      → boundary_inside ops d (length symbols) ≡ true
      → 2 * (d.config.search_window / 2) < length d.preamble_ref
      → ops.at_least (ops.decimal 0 0) d.config.detection_threshold ≡ false
      → process_symbols ops d symbols
        ≡ some (
          if leb d.config.lock_loss_count ((d.consecutive_misses + 1) % 2 ^ 64)
              then record d {
                state = FrameSyncState.searching;
                consecutive_hits = 0;
                consecutive_misses = 0;
                confidence = ops.decimal 0 0;
                sample_counter = (d.sample_counter + length symbols) % 2 ^ 64;
              }
              else record d {
                consecutive_misses = (d.consecutive_misses + 1) % 2 ^ 64;
                sample_counter = (d.sample_counter + length symbols) % 2 ^ 64;
              },
          [],
        )
  unfolding process_symbols handle handle_acquiring acquire_with
  process-short_window d symbols state inside window threshold =
      ap (λ s. handle ops s d symbols >>= after symbols) state
      ∙ ap (λ best. some (acquire_with ops d best) >>= after symbols)
          (short_best d symbols inside window)
      ∙ ap (λ r. some r >>= after symbols) (if-false _ _ threshold)
      ∙ ap (λ r. some (r, []) >>= after symbols) (miss-explicit d state)
      ∙ ground arith
