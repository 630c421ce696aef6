-- ===== src/LockSupervisor/Tests.antt =====
-- A run of the lock supervisor with a threshold of 2 and a relock delay of 5 milliseconds.
use usrp_atsc.Common.{ℕ, ◌+◌, ◌≡◌, refl, arith, true, false, List, [], ◌∷◌, ◌++◌, none, some}
use usrp_atsc.LockSupervisor.{
  LockSupervisor, StatusMessage, PmtValue, Received, new_supervisor, locked_of, handle_messages,
  manual_reset, set_unlock_threshold, set_relock_delay,
}
use usrp_atsc.LockSupervisor.Unlocks.{AreUnlocks, AreWithin, handle_messages-trigger_reset}

abbrev fresh : LockSupervisor
fresh = new_supervisor 0 2 5

abbrev at : ℕ → StatusMessage → Received
at now msg = record { now = now; reset_now = now + 10; msg = msg }

abbrev first : List Received
first = at 6000000 (StatusMessage.bool false) ∷ []

-- A message that says "locked" one millisecond after the reset.
abbrev early : List Received
early = at 8000000 (StatusMessage.bool true) ∷ []

handle_messages-trigger_reset_example :
    (handle_messages fresh first ≡ some (record fresh { consecutive_unlocks = 1 }, []))
    × (handle_messages fresh (first ++ at 7000000 StatusMessage.other ∷ early)
        ≡ some (record fresh { reset_count = 1; last_reset_time = 7000010 }, 1 ∷ []))
unfolding locked_of
handle_messages-trigger_reset_example =
    handle_messages-trigger_reset fresh first early (at 7000000 StatusMessage.other)
      (AreUnlocks.cons (at 6000000 (StatusMessage.bool false)) []
        (record { passed = omega arith; status = refl }) AreUnlocks.nil)
      (record { passed = omega arith; status = refl }) (omega arith) refl
      (AreWithin.cons (at 8000000 (StatusMessage.bool true)) [] (omega arith) (omega arith)
        AreWithin.nil)

-- The exception of a dictionary whose value is no Boolean, and a reset by hand.
wrong_type :
    handle_messages fresh (at 6000000 (StatusMessage.dict (some PmtValue.other)) ∷ []) ≡ none
unfolding handle_messages
wrong_type = refl

by_hand :
    ((manual_reset fresh 9).1 ≡ 1 ∷ [])
    × ((set_unlock_threshold fresh 3).unlock_threshold ≡ 3)
    × ((set_relock_delay fresh 9).relock_delay_ms ≡ 9)
unfolding manual_reset set_unlock_threshold set_relock_delay
by_hand = (refl, refl, refl)
