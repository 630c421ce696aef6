-- ===== src/Sync/State.antt =====
-- The state of `FrameSync` outside of `process`: the constructor, `reset`, `update_frame_params`,
-- `set_bootstrap_offset`, `transition_state` and `emit_frame_event`.
use usrp_atsc.Common.{ℕ, ◌-◌, ◌==◌, ltb, if◌then◌else◌, Bool, true, false, List, [], ◌∷◌, length}
use usrp_atsc.Sync.{
  FloatOps, FrameSyncState, FrameParams, FrameSyncConfig, FrameEventType, FrameEvent, FrameSync,
}
use usrp_atsc.Sync.Correlate.{reference_loop}

unfoldable pub same_state : FrameSyncState → FrameSyncState → Bool
same_state FrameSyncState.searching FrameSyncState.searching = true
same_state FrameSyncState.acquiring FrameSyncState.acquiring = true
same_state FrameSyncState.locked FrameSyncState.locked = true
same_state FrameSyncState.holdover FrameSyncState.holdover = true
same_state _ _ = false

module _ {D : Type 0} (ops : FloatOps D) where
  -- `init_preamble_reference`
  unfoldable pub init_preamble_reference : FrameSync D → FrameSync D
  unfolding reference_loop
  init_preamble_reference d = record d {
    preamble_ref = reference_loop ops d.config.frame_params.fft_size 0;
  }

  -- `FrameSync(config)`
  unfoldable pub new_frame_sync : FrameSyncConfig D → FrameSync D
  unfolding init_preamble_reference
  new_frame_sync config = init_preamble_reference (record {
    config = config;
    state = FrameSyncState.searching;
    frame_number = 0;
    subframe_number = 0;
    symbol_position = 0;
    sample_counter = 0;
    consecutive_hits = 0;
    consecutive_misses = 0;
    holdover_counter = 0;
    expected_boundary = 0;
    confidence = ops.decimal 0 0;
    preamble_ref = [];
    has_callback = false;
  })

  -- `reset`
  unfoldable pub reset_sync : FrameSync D → FrameSync D
  reset_sync d = record d {
    state = FrameSyncState.searching;
    frame_number = 0;
    subframe_number = 0;
    symbol_position = 0;
    sample_counter = 0;
    consecutive_hits = 0;
    consecutive_misses = 0;
    holdover_counter = 0;
    expected_boundary = 0;
    confidence = ops.decimal 0 0;
  }

  -- `update_frame_params`
  unfoldable pub update_frame_params : FrameSync D → FrameParams → FrameSync D
  unfolding init_preamble_reference
  update_frame_params d params =
      let d' = record d { config = record (d.config) { frame_params = params } } in
      if params.fft_size == length d.preamble_ref then d' else init_preamble_reference d'

  -- The counters that a transition sets.
  unfoldable pub enter_state : FrameSyncState → FrameSync D → FrameSync D
  enter_state FrameSyncState.searching d = record d {
    consecutive_hits = 0;
    consecutive_misses = 0;
    confidence = ops.decimal 0 0;
  }
  enter_state FrameSyncState.acquiring d = record d { consecutive_misses = 0 }
  enter_state FrameSyncState.locked d = record d {
    consecutive_misses = 0;
    confidence = ops.decimal 1 0;
  }
  enter_state FrameSyncState.holdover d = record d { holdover_counter = 0 }

  -- `transition_state`
  unfoldable pub transition_state : FrameSyncState → FrameSync D → FrameSync D
  unfolding enter_state same_state
  transition_state new_state d =
      if same_state new_state d.state
      then d
      else record (enter_state new_state d) { state = new_state }

  -- `set_bootstrap_offset`
  unfoldable pub set_bootstrap_offset : FrameSync D → ℕ → D → FrameSync D
  unfolding transition_state
  set_bootstrap_offset d sample_index conf =
      let d' = record d { expected_boundary = sample_index; confidence = conf } in
      elim d.state [
        | FrameSyncState.searching ↦ record (transition_state FrameSyncState.acquiring d') {
          consecutive_hits = 1;
        }
        | FrameSyncState.holdover ↦ record (transition_state FrameSyncState.acquiring d') {
          consecutive_hits = 1;
        }
        | _ ↦ d'
      ]

  -- `emit_frame_event`
  unfoldable pub emit_frame_event : FrameSync D → FrameEventType → List (FrameEvent D)
  emit_frame_event d event_type =
      if d.has_callback
      then record {
        event_type = event_type;
        sample_index = d.sample_counter;
        frame_number = d.frame_number;
        subframe_number = d.subframe_number;
        symbol_number = d.symbol_position;
        confidence = d.confidence;
      }
        ∷ []
      else []

  -- `get_samples_to_boundary`
  unfoldable pub get_samples_to_boundary : FrameSync D → ℕ
  get_samples_to_boundary d =
      if ltb d.sample_counter d.expected_boundary then d.expected_boundary - d.sample_counter else 0

  -- `set_frame_callback`, for a callback or an empty one.
  unfoldable pub set_frame_callback : FrameSync D → Bool → FrameSync D
  set_frame_callback d has_callback = record d { has_callback = has_callback }
