-- ===== src/LockSupervisor.antt =====
-- The lock supervisor, class `lock_supervisor_impl` of blocks/atsc3_lock_supervisor_impl.cc. The steady
-- clock is an argument, in nanoseconds. A threshold or a delay that is not positive acts as 0 in every
-- test and is 0 here. `none` is the exception of `pmt::to_bool` for a value that is no Boolean.
pub mod Unlocks
mod Tests
use usrp_atsc.Common.{
  ℕ, zero, suc, ◌+◌, ◌-◌, ◌/◌, ◌%◌, ◌^◌, ltb, leb, if◌then◌else◌, Bool, true, false, ◌&&◌, List, [],
  ◌∷◌, ◌++◌, Option, none, some,
}
use mathlib.Core.Option
use usrp_atsc.Common.Maybe.{◌>>=◌}

pub record LockSupervisor : Type 0 where
  pub unlock_threshold : ℕ
  pub relock_delay_ms : ℕ
  pub locked : Bool
  pub consecutive_unlocks : ℕ
  pub reset_count : ℕ
  pub last_reset_time : ℕ

-- A value of a message, and a message: a dictionary with what it has under "locked", a Boolean, or
-- anything else.
pub data PmtValue : Type 0 where
  bool : Bool → PmtValue
  other : PmtValue

pub data StatusMessage : Type 0 where
  dict : Option PmtValue → StatusMessage
  bool : Bool → StatusMessage
  other : StatusMessage

abbrev pub new_supervisor : ℕ → ℕ → ℕ → LockSupervisor
new_supervisor now unlock_threshold relock_delay_ms = record {
  unlock_threshold = unlock_threshold;
  relock_delay_ms = relock_delay_ms;
  locked = false;
  consecutive_unlocks = 0;
  reset_count = 0;
  last_reset_time = now;
}

-- `in_relock_delay`
unfoldable pub in_relock_delay : LockSupervisor → ℕ → Bool
in_relock_delay s now = ltb ((now - s.last_reset_time) / 1000000) s.relock_delay_ms

-- The lock status of a message.
unfoldable pub locked_of : StatusMessage → Option Bool
locked_of (StatusMessage.dict none) = some false
locked_of (StatusMessage.dict (some (PmtValue.bool b))) = some b
locked_of (StatusMessage.dict (some PmtValue.other)) = none
locked_of (StatusMessage.bool b) = some b
locked_of StatusMessage.other = some false

-- `trigger_reset`, with the count that the reset message carries.
unfoldable pub trigger_reset : LockSupervisor → ℕ → LockSupervisor × List ℕ
trigger_reset s now =
    let count = (s.reset_count + 1) % 2 ^ 32 in
    (
      record s {
        locked = false;
        consecutive_unlocks = 0;
        reset_count = count;
        last_reset_time = now;
      },
      count ∷ [],
    )

-- `count >= unlock_threshold_` on 32-bit integers.
abbrev pub reaches : ℕ → ℕ → Bool
reaches count threshold = ltb count (2 ^ 31) && leb threshold count

-- The rest of `handle_lock_status`, with the lock status.
unfoldable pub take_status : LockSupervisor → ℕ → Bool → LockSupervisor × List ℕ
unfolding trigger_reset
take_status s now true = (record s { consecutive_unlocks = 0; locked = true }, [])
take_status s now false =
    let count = (s.consecutive_unlocks + 1) % 2 ^ 32 in
    let counted = record s { consecutive_unlocks = count } in
    if reaches count s.unlock_threshold then trigger_reset counted now else (counted, [])

-- A message, with what the clock shows at the test of the relock delay and, after it, at a reset.
pub record Received : Type 0 where
  pub now : ℕ
  pub reset_now : ℕ
  pub msg : StatusMessage

-- `handle_lock_status`: the reset messages that it sends.
unfoldable pub handle_lock_status : LockSupervisor → Received → Option (LockSupervisor × List ℕ)
unfolding in_relock_delay locked_of take_status
handle_lock_status s m =
    if in_relock_delay s m.now
    then some (s, [])
    else (locked_of m.msg >>= λ locked. some (take_status s m.reset_now locked))

-- `manual_reset`, `set_unlock_threshold` and `set_relock_delay`
unfoldable pub manual_reset : LockSupervisor → ℕ → LockSupervisor × List ℕ
unfolding trigger_reset
manual_reset s now = trigger_reset s now

unfoldable pub set_unlock_threshold : LockSupervisor → ℕ → LockSupervisor
set_unlock_threshold s threshold = record s { unlock_threshold = threshold }

unfoldable pub set_relock_delay : LockSupervisor → ℕ → LockSupervisor
set_relock_delay s delay_ms = record s { relock_delay_ms = delay_ms }

-- A sequence of messages.
unfoldable pub handle_messages : LockSupervisor → List Received → Option (LockSupervisor × List ℕ)
unfolding handle_lock_status
handle_messages s [] = some (s, [])
handle_messages s (m ∷ ms) = do
  r ← handle_lock_status s m
  q ← handle_messages r.0 ms
  some (q.0, r.1 ++ q.1)
