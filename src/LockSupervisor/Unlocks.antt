-- ===== src/LockSupervisor/Unlocks.antt =====
-- When the lock supervisor resets the receiver.
use usrp_atsc.Common.{
  ℕ, ◌+◌, ◌*◌, ◌%◌, ◌^◌, ◌≤◌, ◌<◌, ◌≡◌, refl, ap, ◌∙◌, arith, if-true, if-false, true, false, List,
  [], ◌∷◌, ◌++◌, length, some,
}
use usrp_atsc.Common.Maybe.{bind-next}
use usrp_atsc.LockSupervisor.{
  LockSupervisor, Received, in_relock_delay, locked_of, trigger_reset, take_status,
  handle_lock_status, handle_messages,
}

-- A message that says "not locked", when the relock delay has passed.
pub record IsUnlock (s : LockSupervisor) (m : Received) : Type 0 where
  pub passed : s.last_reset_time + s.relock_delay_ms * 1000000 ≤ m.now
  pub status : locked_of m.msg ≡ some false

pub data AreUnlocks (s : LockSupervisor) : List Received → Type 0 where
  nil : AreUnlocks s []
  cons :
      (m : Received) (ms : List Received) → IsUnlock s m → AreUnlocks s ms → AreUnlocks s (m ∷ ms)

-- Messages that come within a delay after a time.
pub data AreWithin (time delay_ms : ℕ) : List Received → Type 0 where
  nil : AreWithin time delay_ms []
  cons :
      (m : Received) (ms : List Received)
      → time ≤ m.now
      → m.now < time + delay_ms * 1000000
      → AreWithin time delay_ms ms
      → AreWithin time delay_ms (m ∷ ms)

-- What is left after unlocks that do not reach the threshold.
abbrev counted : LockSupervisor → ℕ → LockSupervisor
counted s n = record s { consecutive_unlocks = n }

-- What is left after a reset.
abbrev was_reset : LockSupervisor → ℕ → LockSupervisor
was_reset s time = record s {
  locked = false;
  consecutive_unlocks = 0;
  reset_count = (s.reset_count + 1) % 2 ^ 32;
  last_reset_time = time;
}

delay-passed :
    (s : LockSupervisor) (now : ℕ)
    → s.last_reset_time + s.relock_delay_ms * 1000000 ≤ now
    → in_relock_delay s now ≡ false
unfolding in_relock_delay
delay-passed s now h = ground arith

delay-within :
    (s : LockSupervisor) (now : ℕ)
    → s.last_reset_time ≤ now
    → now < s.last_reset_time + s.relock_delay_ms * 1000000
    → in_relock_delay s now ≡ true
unfolding in_relock_delay
delay-within s now h h' = ground arith

module _ (s : LockSupervisor) where
  one_unlock :
      (n : ℕ) (m : Received)
      → IsUnlock s m
      → n + 1 < 2 ^ 31
      → n + 1 < s.unlock_threshold
      → handle_lock_status (counted s n) m ≡ some (counted s (n + 1), [])
  unfolding handle_lock_status take_status in_relock_delay
  one_unlock n m u small low =
      if-false (some (counted s n, [])) _ (delay-passed s m.now u.passed)
      ∙ bind-next (locked_of m.msg) _ false (some (counted s (n + 1), [])) u.status (
          ap some (
            if-false (trigger_reset (counted s ((n + 1) % 2 ^ 32)) m.reset_now)
              (counted s ((n + 1) % 2 ^ 32), []) (ground (arith, small, low))
            ∙ ap (λ c. (counted s c, [])) (omega (arith, small))))

  last_unlock :
      (n : ℕ) (m : Received)
      → IsUnlock s m
      → n + 1 < 2 ^ 31
      → s.unlock_threshold ≤ n + 1
      → handle_lock_status (counted s n) m
        ≡ some (was_reset s m.reset_now, (s.reset_count + 1) % 2 ^ 32 ∷ [])
  unfolding handle_lock_status take_status in_relock_delay trigger_reset
  last_unlock n m u small high =
      if-false (some (counted s n, [])) _ (delay-passed s m.now u.passed)
      ∙ bind-next (locked_of m.msg) _ false _ u.status (
          ap some (
            if-true (trigger_reset (counted s ((n + 1) % 2 ^ 32)) m.reset_now)
              (counted s ((n + 1) % 2 ^ 32), []) (ground (arith, small, high))))

delayed :
    (s : LockSupervisor) (ms : List Received)
    → AreWithin s.last_reset_time s.relock_delay_ms ms
    → handle_messages s ms ≡ some (s, [])
unfolding handle_messages handle_lock_status
delayed s _ AreWithin.nil = refl
delayed s _ (AreWithin.cons m ms after within rest) =
    bind-next (handle_lock_status s m) _ (s, []) (some (s, []))
      (if-true (some (s, [])) _ (delay-within s m.now after within))
      (bind-next (handle_messages s ms) _ (s, []) (some (s, [])) (delayed s ms rest) refl)

unlocks :
    (s : LockSupervisor) (n : ℕ) (ms : List Received)
    → AreUnlocks s ms
    → n + length ms < 2 ^ 31
    → n + length ms < s.unlock_threshold
    → handle_messages (counted s n) ms ≡ some (counted s (n + length ms), [])
unfolding handle_messages
unlocks s n _ AreUnlocks.nil small low = ap (λ c. some (counted s c, [])) (omega arith)
unlocks s n _ (AreUnlocks.cons m ms u rest) small low =
    bind-next (handle_lock_status (counted s n) m) _ (counted s (n + 1), []) _
      (one_unlock s n m u (omega (arith, small)) (omega (arith, low)))
      (bind-next (handle_messages (counted s (n + 1)) ms) _ (counted s (n + 1 + length ms), []) _
        (unlocks s (n + 1) ms rest (omega (arith, small)) (omega (arith, low)))
        (ap (λ c. some (counted s c, [])) (omega arith)))

threshold_reached :
    (s : LockSupervisor) (n : ℕ) (m : Received) (ms later : List Received)
    → AreUnlocks s ms
    → IsUnlock s m
    → s.unlock_threshold < 2 ^ 31
    → n + length ms + 1 ≡ s.unlock_threshold
    → AreWithin m.reset_now s.relock_delay_ms later
    → handle_messages (counted s n) (ms ++ m ∷ later)
      ≡ some (was_reset s m.reset_now, (s.reset_count + 1) % 2 ^ 32 ∷ [])
unfolding handle_messages
threshold_reached s n m _ later AreUnlocks.nil u small e quiet =
    bind-next (handle_lock_status (counted s n) m) _
      (was_reset s m.reset_now, (s.reset_count + 1) % 2 ^ 32 ∷ []) _
      (last_unlock s n m u (omega (arith, small, e)) (omega (arith, e)))
      (bind-next (handle_messages (was_reset s m.reset_now) later) _ (was_reset s m.reset_now, []) _
        (delayed (was_reset s m.reset_now) later quiet) refl)
threshold_reached s n m _ later (AreUnlocks.cons m' ms u' rest) u small e quiet =
    bind-next (handle_lock_status (counted s n) m') _ (counted s (n + 1), []) _
      (one_unlock s n m' u' (omega (arith, small, e)) (omega (arith, e)))
      (bind-next (handle_messages (counted s (n + 1)) (ms ++ m ∷ later)) _
        (was_reset s m.reset_now, (s.reset_count + 1) % 2 ^ 32 ∷ []) _
        (threshold_reached s (n + 1) m ms later rest u small (omega (arith, e)) quiet) refl)

-- With a threshold below 2 ^ 31, unlock messages that come when the relock delay has passed are
-- counted, change nothing else and send nothing, as long as they, with those counted before, are
-- fewer than the threshold. The one that makes them as many clears the lock and the count, advances
-- the number of resets and sends one message with it; the clock is then read again and begins the
-- relock delay. Messages within that delay change nothing and send nothing, whatever they say.
pub handle_messages-trigger_reset :
    (s : LockSupervisor) (ms later : List Received) (m : Received)
    → AreUnlocks s ms
    → IsUnlock s m
    → s.unlock_threshold < 2 ^ 31
    → s.consecutive_unlocks + length ms + 1 ≡ s.unlock_threshold
    → AreWithin m.reset_now s.relock_delay_ms later
    → (handle_messages s ms
        ≡ some (record s { consecutive_unlocks = s.consecutive_unlocks + length ms }, []))
      × (handle_messages s (ms ++ m ∷ later)
          ≡ some (
            record s {
              locked = false;
              consecutive_unlocks = 0;
              reset_count = (s.reset_count + 1) % 2 ^ 32;
              last_reset_time = m.reset_now;
            },
            (s.reset_count + 1) % 2 ^ 32 ∷ [],
          ))
handle_messages-trigger_reset s ms later m h u small e quiet = (
  unlocks s s.consecutive_unlocks ms h (omega (arith, small, e)) (omega (arith, e)),
  threshold_reached s s.consecutive_unlocks m ms later h u small e quiet,
)
