-- ===== src/Sync.antt =====
-- Frame synchronization, lib/sync/frame_sync.h and lib/sync/frame_sync.cc.
-- Correlate is the correlation with the preamble, State what surrounds `process`, Process the state machine. The arithmetic of `double`
-- is a parameter, `FloatOps`; `sample_t` is the build without `ATSC3_FIXED_POINT`, a pair of numbers.
pub mod Correlate
pub mod State
pub mod Process
mod Tests
use usrp_atsc.Common.{ℕ, ◌+◌, ◌*◌, ◌%◌, ◌^◌, Bool, List}

-- The operations of `double` and `float` that the code uses. `decimal m e` is the literal `m * 10^-e`
-- and `to_float` rounds to a `float`.
pub record FloatOps (D : Type 0) : Type 0 where
  pub add : D → D → D
  pub sub : D → D → D
  pub mul : D → D → D
  pub div : D → D → D
  pub sqrt : D → D
  pub cos : D → D
  pub sin : D → D
  pub to_float : D → D
  pub of_nat : ℕ → D
  pub decimal : ℕ → ℕ → D
  pub less : D → D → Bool
  pub at_least : D → D → Bool

pub data FrameSyncState : Type 0 where
  searching acquiring locked holdover : FrameSyncState

pub record FrameParams : Type 0 where
  pub fft_size : ℕ
  pub cp_length : ℕ
  pub symbols_per_subframe : ℕ
  pub subframes_per_frame : ℕ
  pub preamble_symbols : ℕ

-- `samples_per_symbol`, `samples_per_subframe` and `samples_per_frame`
unfoldable pub samples_per_symbol : FrameParams → ℕ
samples_per_symbol p = (p.fft_size + p.cp_length) % 2 ^ 64

unfoldable pub samples_per_subframe : FrameParams → ℕ
samples_per_subframe p = p.symbols_per_subframe * samples_per_symbol p % 2 ^ 64

unfoldable pub samples_per_frame : FrameParams → ℕ
samples_per_frame p = p.subframes_per_frame * samples_per_subframe p % 2 ^ 64

pub record FrameSyncConfig (D : Type 0) : Type 0 where
  pub sample_rate_hz : D
  pub frame_params : FrameParams
  pub detection_threshold : D
  pub lock_acquire_count : ℕ
  pub lock_loss_count : ℕ
  pub holdover_frames : ℕ
  pub search_window : ℕ

pub data FrameEventType : Type 0 where
  frame_start subframe_start symbol_start : FrameEventType

pub record FrameEvent (D : Type 0) : Type 0 where
  pub event_type : FrameEventType
  pub sample_index : ℕ
  pub frame_number : ℕ
  pub subframe_number : ℕ
  pub symbol_number : ℕ
  pub confidence : D

pub record FrameSync (D : Type 0) : Type 0 where
  pub config : FrameSyncConfig D
  pub state : FrameSyncState
  pub frame_number : ℕ
  pub subframe_number : ℕ
  pub symbol_position : ℕ
  pub sample_counter : ℕ
  pub consecutive_hits : ℕ
  pub consecutive_misses : ℕ
  pub holdover_counter : ℕ
  pub expected_boundary : ℕ
  pub confidence : D
  pub preamble_ref : List (D × D)
  pub has_callback : Bool

-- The sum of two `size_t`.
abbrev pub add64 : ℕ → ℕ → ℕ
add64 a b = (a + b) % 2 ^ 64
