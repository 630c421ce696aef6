-- ===== src/Sync/Process/Edges.antt =====
-- The transitions of the state machine that `FrameSync::process` makes.
use usrp_atsc.Common.{
  ℕ, suc, ◌-◌, ◌≡◌, refl, sym, ◌⊎◌, inl, inr, leb, if◌then◌else◌, Bool, true, false, ◌&&◌, List, [],
  length, Option, none, some,
}
use mathlib.Core.Path.{subst}
use usrp_atsc.Common.Maybe.{AllResults, some-cancel, bind-AllResults}
use usrp_atsc.Sync.{FloatOps, FrameSyncState, FrameSync, FrameEvent, add64}
use usrp_atsc.Sync.Correlate.{correlate_preamble}
use usrp_atsc.Sync.Process.{
  same_state, enter_state, transition_state, search_loop, search_with, acquire_with,
  handle_searching, handle_acquiring, track_with, handle_locked, predict, handle_holdover, handle,
  process_symbols, boundary_inside, count_miss, acquire_hit, track_hit, next_frame, count_holdover,
  predicted, regain,
}

-- The edges of the state machine of frame_sync.h.
pub data Edge : FrameSyncState → FrameSyncState → Type 0 where
  stays : (s : FrameSyncState) → Edge s s
  found : Edge FrameSyncState.searching FrameSyncState.acquiring
  confirmed : Edge FrameSyncState.acquiring FrameSyncState.locked
  abandoned : Edge FrameSyncState.acquiring FrameSyncState.searching
  lost : Edge FrameSyncState.locked FrameSyncState.holdover
  regained : Edge FrameSyncState.holdover FrameSyncState.locked
  expired : Edge FrameSyncState.holdover FrameSyncState.searching

pub if-holds {ℓ κ} :
    {A : Type ℓ} (P : A → Type κ) (b : Bool) {x y : A} → P x → P y → P (if b then x else y)
if-holds P true p q = p
if-holds P false p q = q

same_state-eq : (s t : FrameSyncState) → same_state s t ≡ true → t ≡ s
unfolding same_state
same_state-eq FrameSyncState.searching FrameSyncState.searching h = refl
same_state-eq FrameSyncState.acquiring FrameSyncState.acquiring h = refl
same_state-eq FrameSyncState.locked FrameSyncState.locked h = refl
same_state-eq FrameSyncState.holdover FrameSyncState.holdover h = refl
same_state-eq FrameSyncState.searching FrameSyncState.acquiring h = cc
same_state-eq FrameSyncState.searching FrameSyncState.locked h = cc
same_state-eq FrameSyncState.searching FrameSyncState.holdover h = cc
same_state-eq FrameSyncState.acquiring FrameSyncState.searching h = cc
same_state-eq FrameSyncState.acquiring FrameSyncState.locked h = cc
same_state-eq FrameSyncState.acquiring FrameSyncState.holdover h = cc
same_state-eq FrameSyncState.locked FrameSyncState.searching h = cc
same_state-eq FrameSyncState.locked FrameSyncState.acquiring h = cc
same_state-eq FrameSyncState.locked FrameSyncState.holdover h = cc
same_state-eq FrameSyncState.holdover FrameSyncState.searching h = cc
same_state-eq FrameSyncState.holdover FrameSyncState.acquiring h = cc
same_state-eq FrameSyncState.holdover FrameSyncState.locked h = cc

if-state :
    {D : Type 0} (b : Bool) (d : FrameSync D) (s : FrameSyncState) (e : FrameSync D)
    → (b ≡ true → d.state ≡ s)
    → (if b then d else record e { state = s }).state ≡ s
if-state true d s e h = h refl
if-state false d s e h = refl

-- What a step from `s` gives: a state that an edge leads to, and calls only in the state LOCKED.
pub record Step {D : Type 0} (s : FrameSyncState) (r : FrameSync D × List (FrameEvent D))
    : Type 0 where
  pub edge : Edge s r.0.state
  pub calls : (r.1 ≡ []) ⊎ (r.0.state ≡ FrameSyncState.locked)

module _ {D : Type 0} (ops : FloatOps D) where
  pub transition_state-state :
      (s : FrameSyncState) (d : FrameSync D) → (transition_state ops s d).state ≡ s
  unfolding transition_state
  transition_state-state s d =
      if-state (same_state s d.state) d s (enter_state ops s d) (same_state-eq s d.state)

  Edge-subst : (s s' t : FrameSyncState) → Edge s s' → t ≡ s' → Edge s t
  Edge-subst s s' t e h = subst (λ x. Edge s x) (sym h) e

  -- A step without a call.
  quiet : (s s' : FrameSyncState) (d : FrameSync D) → Edge s s' → d.state ≡ s' → Step s (d, [])
  quiet s s' d e h = record { edge = Edge-subst s s' d.state e h; calls = inl refl }

  -- A transition with or without a call in the state that it enters.
  moved :
      (s s' : FrameSyncState) (d : FrameSync D) → Edge s s' → Step s (transition_state ops s' d, [])
  moved s s' d e = quiet s s' (transition_state ops s' d) e (transition_state-state s' d)

  locked_in :
      (s : FrameSyncState) (d : FrameSync D) (calls : List (FrameEvent D))
      → Edge s FrameSyncState.locked
      → d.state ≡ FrameSyncState.locked
      → Step s (d, calls)
  locked_in s d calls e h = record {
    edge = Edge-subst s FrameSyncState.locked d.state e h;
    calls = inr h;
  }

  acquire_with-Step :
      (d : FrameSync D) (best : ℕ × D)
      → d.state ≡ FrameSyncState.acquiring
      → Step FrameSyncState.acquiring (acquire_with ops d best)
  unfolding acquire_with
  acquire_with-Step d best h =
      let s = FrameSyncState.acquiring in
      if-holds (Step s) (ops.at_least best.1 d.config.detection_threshold)
        (if-holds (Step s) (leb d.config.lock_acquire_count (add64 d.consecutive_hits 1))
          (locked_in s (transition_state ops FrameSyncState.locked (acquire_hit ops d best)) _
            confirmed (transition_state-state FrameSyncState.locked (acquire_hit ops d best)))
          (quiet s s (acquire_hit ops d best) (stays s) h))
        (if-holds {A = FrameSync D} (λ x. Step {D = D} s (x, []))
          (leb d.config.lock_loss_count (add64 d.consecutive_misses 1))
          (moved s FrameSyncState.searching (count_miss ops d) abandoned)
          (quiet s s (count_miss ops d) (stays s) h))

  track_with-Step :
      (d : FrameSync D) (best : ℕ × D)
      → d.state ≡ FrameSyncState.locked
      → Step FrameSyncState.locked (track_with ops d best)
  unfolding track_with
  track_with-Step d best h =
      let s = FrameSyncState.locked in
      if-holds (Step s)
        (ops.at_least best.1 (ops.mul d.config.detection_threshold (ops.decimal 8 1)))
        (locked_in s (next_frame ops (track_hit ops d best) best) _ (stays s) h)
        (if-holds (Step s) (leb d.config.lock_loss_count (add64 d.consecutive_misses 1))
          (moved s FrameSyncState.holdover (count_miss ops d) lost)
          (quiet s s (count_miss ops d) (stays s) h))

  predict-Step :
      (d : FrameSync D)
      → d.state ≡ FrameSyncState.holdover
      → Step FrameSyncState.holdover (predict ops d, [])
  unfolding predict
  predict-Step d h =
      let s = FrameSyncState.holdover in
      if-holds {A = FrameSync D} (λ x. Step {D = D} s (x, []))
        (leb d.config.holdover_frames d.holdover_counter)
        (moved s FrameSyncState.searching d expired) (quiet s s (predicted ops d) (stays s) h)

  search_with-Step :
      (d : FrameSync D) (o : Option (ℕ × D))
      → d.state ≡ FrameSyncState.searching
      → Step FrameSyncState.searching (search_with ops d o)
  unfolding search_with
  search_with-Step d none h =
      quiet FrameSyncState.searching FrameSyncState.searching d (stays FrameSyncState.searching) h
  search_with-Step d (some (offset, corr)) h =
      quiet FrameSyncState.searching FrameSyncState.acquiring _ found (
        transition_state-state FrameSyncState.acquiring
          (record d { expected_boundary = add64 d.sample_counter offset; confidence = corr }))

  searching-Step :
      (d : FrameSync D) (symbols : List (D × D))
      → d.state ≡ FrameSyncState.searching
      → AllResults (Step FrameSyncState.searching) (handle_searching ops d symbols)
  unfolding handle_searching
  searching-Step d symbols h =
      bind-AllResults (Step FrameSyncState.searching)
        (search_loop ops (suc (suc (length symbols))) d.config d.preamble_ref symbols 0) _
        λ o e r h'. subst (Step FrameSyncState.searching) (some-cancel h') (search_with-Step d o h)

  handle-Step :
      (s : FrameSyncState) (d : FrameSync D) (symbols : List (D × D))
      → d.state ≡ s
      → AllResults (Step s) (handle ops s d symbols)
  unfolding handle handle_acquiring handle_locked handle_holdover
  handle-Step FrameSyncState.searching d symbols h r e = searching-Step d symbols h r e
  handle-Step FrameSyncState.acquiring d symbols h r e =
      subst (Step FrameSyncState.acquiring) (some-cancel e) (acquire_with-Step d _ h)
  handle-Step FrameSyncState.locked d symbols h r e =
      subst (Step FrameSyncState.locked) (some-cancel e) (
        if-holds (Step FrameSyncState.locked) (boundary_inside ops d (length symbols))
          (track_with-Step d _ h)
          (quiet FrameSyncState.locked FrameSyncState.locked d (stays FrameSyncState.locked) h))
  handle-Step FrameSyncState.holdover d symbols h r e =
      subst (Step FrameSyncState.holdover) (some-cancel e) (
        if-holds (Step FrameSyncState.holdover)
          (boundary_inside ops d (length symbols)
            && ops.at_least
                (correlate_preamble ops d.preamble_ref symbols
                  (d.expected_boundary - d.sample_counter))
                d.config.detection_threshold)
          (locked_in FrameSyncState.holdover (regain ops (count_holdover ops d)) _ regained
            (transition_state-state FrameSyncState.locked (count_holdover ops d)))
          (predict-Step (count_holdover ops d) h))

-- Every call of `process` that returns goes along an edge of the state machine or stays, and it calls
-- the callback only if it leaves the object in the state LOCKED.
pub process-Step :
    {D : Type 0} (ops : FloatOps D) (d : FrameSync D) (symbols : List (D × D))
    (r : FrameSync D × List (FrameEvent D))
    → process_symbols ops d symbols ≡ some r
    → Step d.state r
unfolding process_symbols
process-Step ops d symbols =
    bind-AllResults (Step d.state) (handle ops d.state d symbols) _ λ a e b h.
      let step = handle-Step ops d.state d symbols refl a e in
      subst (Step d.state) (some-cancel h) (record { edge = step.edge; calls = step.calls })
