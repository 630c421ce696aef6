-- ===== src/Sync/Tests.antt =====
-- The theorems on the frame synchronizer at small objects, with natural numbers for `double`.
use usrp_atsc.Common.{
  ℕ, ◌+◌, ◌-◌, ◌*◌, ◌<◌, ◌≡◌, refl, arith, leb, ltb, if◌then◌else◌, true, List, [], ◌∷◌, none, some,
}
use usrp_atsc.Common.Maybe.{IsDefined}
use usrp_atsc.Sync.{FloatOps, FrameSyncState, FrameSync, FrameSyncConfig, FrameEvent}
use usrp_atsc.Sync.Correlate.{correlate_preamble}
use usrp_atsc.Sync.Process.{process_symbols, search_loop, transition_state, enter_state, same_state}
use usrp_atsc.Sync.Process.Edges.{Step, process-Step}
use usrp_atsc.Sync.Process.Windows.{process-IsDefined, search-endless, process-short_window}
use usrp_atsc.Sync.Process.Lock.{process_all, process_all-stuck, process-confirmed}

abbrev natural : FloatOps ℕ
natural = record {
  add = λ a b. a + b;
  sub = λ a b. a - b;
  mul = λ a b. a * b;
  div = λ a b. a;
  sqrt = λ a. a;
  cos = λ a. a;
  sin = λ a. a;
  to_float = λ a. a;
  of_nat = λ n. n;
  decimal = λ m e. m;
  less = ltb;
  at_least = λ a b. leb b a;
}

abbrev small_config : ℕ → ℕ → FrameSyncConfig ℕ
small_config fft_size search_window = record {
  sample_rate_hz = 1;
  frame_params = record {
    fft_size = fft_size;
    cp_length = 1;
    symbols_per_subframe = 1;
    subframes_per_frame = 1;
    preamble_symbols = 1;
  };
  detection_threshold = 1;
  lock_acquire_count = 2;
  lock_loss_count = 5;
  holdover_frames = 10;
  search_window = search_window;
}

-- An object in a state of the choice, with a reference of ones.
abbrev sync_in : FrameSyncState → ℕ → ℕ → ℕ → FrameSync ℕ
sync_in state fft_size sample_counter expected_boundary = record {
  config = small_config fft_size 2;
  state = state;
  frame_number = 0;
  subframe_number = 0;
  symbol_position = 0;
  sample_counter = sample_counter;
  consecutive_hits = 1;
  consecutive_misses = 0;
  holdover_counter = 0;
  expected_boundary = expected_boundary;
  confidence = 0;
  preamble_ref = (1, 1) ∷ (1, 1) ∷ (1, 1) ∷ (1, 1) ∷ [];
  has_callback = true;
}

abbrev ones : List (ℕ × ℕ)
ones = (1, 1) ∷ (1, 1) ∷ (1, 1) ∷ (1, 1) ∷ (1, 1) ∷ []

abbrev zeros : List (ℕ × ℕ)
zeros = (0, 0) ∷ (0, 0) ∷ (0, 0) ∷ (0, 0) ∷ []

-- What a call gives, or the object as it was.
abbrev result_of : FrameSync ℕ → List (ℕ × ℕ) → FrameSync ℕ × List (FrameEvent ℕ)
result_of d symbols = elim (process_symbols natural d symbols) [ none ↦ (d, []) | some r ↦ r ]

process-Step_example :
    Step FrameSyncState.acquiring (result_of (sync_in FrameSyncState.acquiring 4 0 0) ones)
unfolding process_symbols
process-Step_example =
    process-Step natural (sync_in FrameSyncState.acquiring 4 0 0) ones
      (result_of (sync_in FrameSyncState.acquiring 4 0 0) ones) refl

process-IsDefined_example :
    IsDefined (process_symbols natural (sync_in FrameSyncState.searching 4 0 0) ones)
process-IsDefined_example =
    process-IsDefined natural (sync_in FrameSyncState.searching 4 0 0) ones (omega arith)

search-endless_example :
    search_loop natural 9 (small_config 3 2) ((1, 1) ∷ (1, 1) ∷ []) zeros 0 ≡ none
unfolding correlate_preamble
search-endless_example =
    search-endless natural 9 (small_config 3 2) ((1, 1) ∷ (1, 1) ∷ []) zeros (omega arith)
      (omega arith) refl

process-short_window_example :
    process_symbols natural (sync_in FrameSyncState.acquiring 4 0 2) ones
    ≡ some (
      if leb 5 1
          then record (sync_in FrameSyncState.acquiring 4 0 2) {
            state = FrameSyncState.searching;
            consecutive_hits = 0;
            consecutive_misses = 0;
            confidence = 0;
            sample_counter = 5;
          }
          else record (sync_in FrameSyncState.acquiring 4 0 2) {
            consecutive_misses = 1;
            sample_counter = 5;
          },
      [],
    )
process-short_window_example =
    process-short_window natural (sync_in FrameSyncState.acquiring 4 0 2) ones refl refl
      (omega arith) refl

process_all-stuck_example :
    process_all natural (sync_in FrameSyncState.locked 4 8 5) (ones ∷ zeros ∷ [])
    ≡ some (sync_in FrameSyncState.locked 4 17 5, [])
process_all-stuck_example =
    process_all-stuck natural (sync_in FrameSyncState.locked 4 8 5) (ones ∷ zeros ∷ []) refl
      (omega arith) (omega arith)

process-confirmed_example :
    (result_of (sync_in FrameSyncState.acquiring 4 0 9) ones).0.expected_boundary
    < (result_of (sync_in FrameSyncState.acquiring 4 0 9) ones).0.sample_counter
unfolding process_symbols transition_state enter_state same_state correlate_preamble
process-confirmed_example =
    process-confirmed natural (sync_in FrameSyncState.acquiring 4 0 9) ones
      (result_of (sync_in FrameSyncState.acquiring 4 0 9) ones) refl refl refl (omega arith)
      (omega arith)
