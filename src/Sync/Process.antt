-- ===== src/Sync/Process.antt =====
-- `FrameSync::process` and its handlers.
-- A handler gives the object it leaves and the calls of the callback.
pub mod Edges
pub mod Windows
pub mod Lock
unfoldable pub use usrp_atsc.Sync.State.{
  same_state, new_frame_sync, enter_state, transition_state, emit_frame_event,
}
use usrp_atsc.Common.{
  ℕ, zero, suc, ◌+◌, ◌-◌, ◌*◌, ◌/◌, ◌%◌, ◌^◌, ◌==◌, ltb, leb, if◌then◌else◌, Bool, true, false, not,
  ◌&&◌, List, [], ◌∷◌, length, min, Option, none, some,
}
use mathlib.Core.Option
use usrp_atsc.Common.Maybe.{◌>>=◌}
use usrp_atsc.Sync.{
  FloatOps, FrameSyncState, FrameParams, FrameSyncConfig, FrameEventType, FrameEvent, FrameSync,
  samples_per_frame, add64,
}
use usrp_atsc.Sync.Correlate.{reference_loop, correlate_preamble}

module _ {D : Type 0} (ops : FloatOps D) where
  -- The loop of `handle_searching`: the first offset that correlates, if any; the outer `none` is that
  -- the fuel runs out. `Process.Windows` shows when that can be.
  unfoldable pub search_loop :
      ℕ → FrameSyncConfig D → List (D × D) → List (D × D) → ℕ → Option (Option (ℕ × D))
  search_loop zero config preamble_ref symbols offset = none
  search_loop (suc fuel) config preamble_ref symbols offset =
      let corr = correlate_preamble ops preamble_ref symbols offset in
      let rest =
        search_loop fuel config preamble_ref symbols (offset + config.frame_params.fft_size / 4) in
      if leb (offset + length preamble_ref) (length symbols)
      then if ops.at_least corr config.detection_threshold then some (some (offset, corr)) else rest
      else some none

  -- The loop for the best offset: while `offset + preamble_ref_.size() <= reach && offset < bound`.
  -- It stops by itself within `bound` rounds.
  unfoldable pub best_loop : ℕ → List (D × D) → List (D × D) → ℕ → ℕ → ℕ → ℕ × D → ℕ × D
  best_loop zero preamble_ref symbols reach bound offset best = best
  best_loop (suc fuel) preamble_ref symbols reach bound offset best =
      let corr = correlate_preamble ops preamble_ref symbols offset in
      let rest =
        best_loop fuel preamble_ref symbols reach bound (offset + 1)
          (if ops.less best.1 corr then (offset, corr) else best) in
      if leb (offset + length preamble_ref) reach && ltb offset bound then rest else best

  -- `expected_boundary_ >= sample_counter_ && expected_boundary_ < sample_counter_ + n`
  abbrev pub boundary_inside : FrameSync D → ℕ → Bool
  boundary_inside d n =
      leb d.sample_counter d.expected_boundary && ltb d.expected_boundary (add64 d.sample_counter n)

  -- The rest of `handle_searching`, with the offset that was found, if any.
  unfoldable pub search_with : FrameSync D → Option (ℕ × D) → FrameSync D × List (FrameEvent D)
  unfolding transition_state
  search_with d none = (d, [])
  search_with d (some (offset, corr)) = (
    record (transition_state ops FrameSyncState.acquiring
        (record d { expected_boundary = add64 d.sample_counter offset; confidence = corr })) {
          consecutive_hits = 1;
        },
    [],
  )

  -- `handle_searching`
  unfoldable pub handle_searching :
      FrameSync D → List (D × D) → Option (FrameSync D × List (FrameEvent D))
  unfolding search_loop search_with
  handle_searching d symbols = do
    result ← search_loop (suc (suc (length symbols))) d.config d.preamble_ref symbols 0
    some (search_with d result)

  -- Where `handle_acquiring` searches: around the boundary if it is inside of the buffer.
  abbrev pub acquire_range : FrameSync D → ℕ → ℕ × ℕ
  acquire_range d n =
      let expected_offset = d.expected_boundary - d.sample_counter in
      let half_window = d.config.search_window / 2 in
      if boundary_inside d n
      then (expected_offset - half_window, min (expected_offset + half_window) n)
      else (0, n)

  -- A miss is counted.
  abbrev pub count_miss : FrameSync D → FrameSync D
  count_miss d = record d { consecutive_misses = add64 d.consecutive_misses 1 }

  -- A miss in the state ACQUIRING.
  abbrev pub acquire_miss : FrameSync D → FrameSync D
  acquire_miss d =
      if leb d.config.lock_loss_count (count_miss d).consecutive_misses
      then transition_state ops FrameSyncState.searching (count_miss d)
      else count_miss d

  -- A hit in the state ACQUIRING.
  abbrev pub acquire_hit : FrameSync D → ℕ × D → FrameSync D
  acquire_hit d best = record d {
    expected_boundary = add64 d.sample_counter best.0;
    confidence =
        ops.add (ops.mul (ops.decimal 9 1) d.confidence) (ops.mul (ops.decimal 1 1) best.1);
    consecutive_hits = add64 d.consecutive_hits 1;
  }

  -- The rest of `handle_acquiring`, with the best offset and its correlation.
  unfoldable pub acquire_with : FrameSync D → ℕ × D → FrameSync D × List (FrameEvent D)
  unfolding transition_state
  acquire_with d best =
      let hit = acquire_hit d best in
      let in_lock = transition_state ops FrameSyncState.locked hit in
      if ops.at_least best.1 d.config.detection_threshold
      then if leb d.config.lock_acquire_count hit.consecutive_hits
        then (in_lock, emit_frame_event ops in_lock FrameEventType.frame_start)
        else (hit, [])
      else (acquire_miss d, [])

  -- `handle_acquiring`
  unfoldable pub handle_acquiring : FrameSync D → List (D × D) → FrameSync D × List (FrameEvent D)
  unfolding best_loop acquire_with
  handle_acquiring d symbols =
      let n = length symbols in
      let range = acquire_range d n in
      acquire_with d (best_loop n d.preamble_ref symbols range.1 n range.0 (0, ops.decimal 0 0))

  -- A hit in the state LOCKED, and what is set after the call of the callback.
  abbrev pub track_hit : FrameSync D → ℕ × D → FrameSync D
  track_hit d best = record d {
    confidence =
        ops.add (ops.mul (ops.decimal 95 2) d.confidence) (ops.mul (ops.decimal 5 2) best.1);
    consecutive_misses = 0;
  }

  abbrev pub next_frame : FrameSync D → ℕ × D → FrameSync D
  next_frame d best = record d {
    frame_number = add64 d.frame_number 1;
    expected_boundary =
        add64 (add64 d.sample_counter best.0) (samples_per_frame d.config.frame_params);
  }

  -- The rest of `handle_locked` where the boundary is inside, with the best offset.
  unfoldable pub track_with : FrameSync D → ℕ × D → FrameSync D × List (FrameEvent D)
  unfolding transition_state
  track_with d best =
      let hit = track_hit d best in
      if ops.at_least best.1 (ops.mul d.config.detection_threshold (ops.decimal 8 1))
      then (next_frame hit best, emit_frame_event ops hit FrameEventType.frame_start)
      else if leb d.config.lock_loss_count (count_miss d).consecutive_misses
      then (transition_state ops FrameSyncState.holdover (count_miss d), [])
      else (count_miss d, [])

  -- `handle_locked`
  unfoldable pub handle_locked : FrameSync D → List (D × D) → FrameSync D × List (FrameEvent D)
  unfolding best_loop track_with
  handle_locked d symbols =
      let n = length symbols in
      let expected_offset = d.expected_boundary - d.sample_counter in
      let half_window = d.config.search_window / 2 in
      let search_end = min (expected_offset + half_window + 1) n in
      if boundary_inside d n
      then track_with d (
          best_loop n d.preamble_ref symbols n search_end (expected_offset - half_window)
            (expected_offset, ops.decimal 0 0))
      else (d, [])

  -- The counted frame of `handle_holdover`, and the prediction of the next boundary.
  abbrev pub count_holdover : FrameSync D → FrameSync D
  count_holdover d = record d { holdover_counter = add64 d.holdover_counter 1 }

  abbrev pub predicted : FrameSync D → FrameSync D
  predicted d = record d {
    frame_number = add64 d.frame_number 1;
    expected_boundary = add64 d.expected_boundary (samples_per_frame d.config.frame_params);
    confidence = ops.mul d.confidence (ops.decimal 9 1);
  }

  -- The end of `handle_holdover`, where nothing has been found.
  unfoldable pub predict : FrameSync D → FrameSync D
  unfolding transition_state
  predict d =
      if leb d.config.holdover_frames d.holdover_counter
      then transition_state ops FrameSyncState.searching d
      else predicted d

  abbrev pub regain : FrameSync D → FrameSync D
  regain d = record (transition_state ops FrameSyncState.locked d) { consecutive_hits = 1 }

  -- `handle_holdover`
  unfoldable pub handle_holdover : FrameSync D → List (D × D) → FrameSync D × List (FrameEvent D)
  unfolding predict
  handle_holdover d symbols =
      let corr =
        correlate_preamble ops d.preamble_ref symbols (d.expected_boundary - d.sample_counter) in
      let in_lock = regain (count_holdover d) in
      if boundary_inside d (length symbols) && ops.at_least corr d.config.detection_threshold
      then (in_lock, emit_frame_event ops in_lock FrameEventType.frame_start)
      else (predict (count_holdover d), [])

  -- The handler of a state.
  unfoldable pub handle :
      FrameSyncState → FrameSync D → List (D × D) → Option (FrameSync D × List (FrameEvent D))
  unfolding handle_searching handle_acquiring handle_locked handle_holdover
  handle FrameSyncState.searching d symbols = handle_searching d symbols
  handle FrameSyncState.acquiring d symbols = some (handle_acquiring d symbols)
  handle FrameSyncState.locked d symbols = some (handle_locked d symbols)
  handle FrameSyncState.holdover d symbols = some (handle_holdover d symbols)

  -- `process`
  unfoldable pub process_symbols :
      FrameSync D → List (D × D) → Option (FrameSync D × List (FrameEvent D))
  unfolding handle
  process_symbols d symbols = do
    r ← handle d.state d symbols
    some (record (r.0) { sample_counter = add64 r.0.sample_counter (length symbols) }, r.1)
