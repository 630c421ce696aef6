-- ===== src/Sync/Process/Lock.antt =====
-- `FrameSync::process` in the state LOCKED, and over a sequence of calls.
use usrp_atsc.Common.{
  ℕ, zero, suc, ◌+◌, ◌^◌, ◌<◌, ◌≡◌, refl, sym, ap, ◌∙◌, arith, leb, ltb, if◌then◌else◌, if-false,
  if-case, and-right, ltb→lt, false, ◌&&◌, List, [], ◌∷◌, ◌++◌, length, Option, some,
}
use usrp_atsc.Common.Maybe.{◌>>=◌, bind-next, some-cancel}
use usrp_atsc.Sync.Process.Edges.{if-holds, transition_state-state}
use usrp_atsc.Sync.{FloatOps, FrameSyncState, FrameSync, FrameEvent, add64}
use usrp_atsc.Sync.Correlate.{correlate_preamble}
use usrp_atsc.Sync.Process.{
  best_loop, acquire_with, acquire_range, boundary_inside, same_state, acquire_hit, count_miss,
  enter_state, transition_state, handle, handle_acquiring, handle_locked, process_symbols,
}

searching-not_locked : ¬ (FrameSyncState.searching ≡ FrameSyncState.locked)
searching-not_locked h = cc

acquiring-not_locked : ¬ (FrameSyncState.acquiring ≡ FrameSyncState.locked)
acquiring-not_locked h = cc

-- The end of `process`.
abbrev after :
    {D : Type 0}
    → List (D × D)
    → FrameSync D × List (FrameEvent D)
    → Option (FrameSync D × List (FrameEvent D))
after symbols r =
    some (record (r.0) { sample_counter = add64 r.0.sample_counter (length symbols) }, r.1)

module _ {D : Type 0} (ops : FloatOps D) where
  -- In the state LOCKED, with the expected boundary behind the sample counter, `process` changes
  -- nothing but the sample counter and calls nothing.
  locked_behind :
      (d : FrameSync D) (symbols : List (D × D))
      → d.state ≡ FrameSyncState.locked
      → d.expected_boundary < d.sample_counter
      → process_symbols ops d symbols
        ≡ some (record d { sample_counter = add64 d.sample_counter (length symbols) }, [])
  unfolding process_symbols handle handle_locked
  locked_behind d symbols state behind =
      ap (λ s. handle ops s d symbols >>= after symbols) state
      ∙ ap (λ r. some r >>= after symbols) (if-false _ _ outside)
    where
      outside : boundary_inside ops d (length symbols) ≡ false
      outside = ground arith

  -- A sequence of calls of `process`, with all the calls of the callback.
  unfoldable pub process_all :
      FrameSync D → List (List (D × D)) → Option (FrameSync D × List (FrameEvent D))
  process_all d [] = some (d, [])
  process_all d (symbols ∷ blocks) = do
    r ← process_symbols ops d symbols
    s ← process_all r.0 blocks
    some (s.0, r.1 ++ s.1)

  abbrev pub total : List (List (D × D)) → ℕ
  total [] = 0
  total (symbols ∷ blocks) = length symbols + total blocks

  -- Once the object is LOCKED with the expected boundary behind the sample counter, no sequence of
  -- blocks, as long as the counter does not wrap around, ever leaves the state or calls the callback:
  -- only the sample counter advances.
  pub process_all-stuck :
      (d : FrameSync D) (blocks : List (List (D × D)))
      → d.state ≡ FrameSyncState.locked
      → d.expected_boundary < d.sample_counter
      → d.sample_counter + total blocks < 2 ^ 64
      → process_all d blocks
        ≡ some (record d { sample_counter = d.sample_counter + total blocks }, [])
  unfolding process_all
  process_all-stuck d [] state behind fits =
      ap (λ k. some (record d { sample_counter = k }, [])) (omega arith)
  process_all-stuck d (symbols ∷ blocks) state behind fits =
      let d' = record d { sample_counter = add64 d.sample_counter (length symbols) } in
      bind-next (process_symbols ops d symbols) _ (d', []) _ (locked_behind d symbols state behind)
        (bind-next (process_all d' blocks) _ _ _
          (process_all-stuck d' blocks state (omega arith) (omega arith))
          (ap (λ k. some (record d { sample_counter = k }, [])) (omega arith)))

  best-below :
      (fuel : ℕ) (preamble_ref symbols : List (D × D)) (reach bound offset : ℕ) (best : ℕ × D)
      → best.0 < bound
      → (best_loop ops fuel preamble_ref symbols reach bound offset best).0 < bound
  unfolding best_loop
  best-below zero preamble_ref symbols reach bound offset best h = h
  best-below (suc fuel) preamble_ref symbols reach bound offset best h =
      let corr = correlate_preamble ops preamble_ref symbols offset in
      if-case {A = ℕ × D} (λ x. x.0 < bound)
        (leb (offset + length preamble_ref) reach && ltb offset bound)
        (λ more.
          best-below fuel preamble_ref symbols reach bound (offset + 1)
            (if ops.less best.1 corr then (offset, corr) else best)
            (if-holds {A = ℕ × D} (λ x. x.0 < bound) (ops.less best.1 corr)
              (ltb→lt offset bound
                (and-right (leb (offset + length preamble_ref) reach) (ltb offset bound) more))
              h))
        (λ stop. h)

  transition-keeps :
      (s : FrameSyncState) (d : FrameSync D)
      → ((transition_state ops s d).expected_boundary ≡ d.expected_boundary)
        × ((transition_state ops s d).sample_counter ≡ d.sample_counter)
  unfolding transition_state enter_state
  transition-keeps s d =
      if-holds {A = FrameSync D}
        (λ x. (x.expected_boundary ≡ d.expected_boundary) × (x.sample_counter ≡ d.sample_counter))
        (same_state s d.state) (refl, refl) (entered s)
    where
      entered :
          (s : FrameSyncState)
          → ((enter_state ops s d).expected_boundary ≡ d.expected_boundary)
            × ((enter_state ops s d).sample_counter ≡ d.sample_counter)
      entered FrameSyncState.searching = (refl, refl)
      entered FrameSyncState.acquiring = (refl, refl)
      entered FrameSyncState.locked = (refl, refl)
      entered FrameSyncState.holdover = (refl, refl)

  -- What the state LOCKED says of a result of `acquire_with`.
  record At (d : FrameSync D) (offset : ℕ) (r : FrameSync D × List (FrameEvent D)) : Type 0 where
    counter : r.0.sample_counter ≡ d.sample_counter
    boundary :
        r.0.state ≡ FrameSyncState.locked → r.0.expected_boundary ≡ add64 d.sample_counter offset

  acquire_with-At :
      (d : FrameSync D) (best : ℕ × D)
      → d.state ≡ FrameSyncState.acquiring
      → At d best.0 (acquire_with ops d best)
  unfolding acquire_with
  acquire_with-At d best h =
      let hit = acquire_hit ops d best in
      let kept = transition-keeps FrameSyncState.locked hit in
      let left = transition-keeps FrameSyncState.searching (count_miss ops d) in
      if-holds (At d best.0) (ops.at_least best.1 d.config.detection_threshold)
        (if-holds (At d best.0) (leb d.config.lock_acquire_count (add64 d.consecutive_hits 1))
          (record { counter = kept.1; boundary = λ e. kept.0 })
          (record { counter = refl; boundary = λ e. refl }))
        (if-holds {A = FrameSync D} (λ x. At d best.0 (x, []))
          (leb d.config.lock_loss_count (add64 d.consecutive_misses 1))
          (record {
            counter = left.1;
            boundary = λ e. absurd (
                searching-not_locked (
                  sym (transition_state-state ops FrameSyncState.searching (count_miss ops d))
                  ∙ e));
          })
          (record { counter = refl; boundary = λ e. absurd (acquiring-not_locked (sym h ∙ e)) }))

  -- A lock that `process` has just acquired leaves the expected boundary behind the sample counter.
  pub process-confirmed :
      (d : FrameSync D) (symbols : List (D × D)) (r : FrameSync D × List (FrameEvent D))
      → d.state ≡ FrameSyncState.acquiring
      → process_symbols ops d symbols ≡ some r
      → r.0.state ≡ FrameSyncState.locked
      → 0 < length symbols
      → d.sample_counter + length symbols < 2 ^ 64
      → r.0.expected_boundary < r.0.sample_counter
  unfolding process_symbols handle handle_acquiring
  process-confirmed d symbols r state h locked some_symbols fits =
      let n = length symbols in
      let best =
        best_loop ops n d.preamble_ref symbols (acquire_range ops d n).1 n (acquire_range ops d n).0
          (0, ops.decimal 0 0) in
      let inside =
        best-below n d.preamble_ref symbols (acquire_range ops d n).1 n (acquire_range ops d n).0
          (0, ops.decimal 0 0) some_symbols in
      let result = acquire_with ops d best in
      let at = acquire_with-At d best state in
      let same = some-cancel (sym (ap (λ s. handle ops s d symbols >>= after symbols) state) ∙ h) in
      omega (
        arith,
        inside,
        at.boundary (ap (λ x. x.0.state) same ∙ locked),
        at.counter,
        ap (λ x. x.0.expected_boundary) same,
        ap (λ x. x.0.sample_counter) same,
      )
