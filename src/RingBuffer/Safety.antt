-- ===== src/RingBuffer/Safety.antt =====
-- A ring buffer under every interleaving of its producer and its consumer.
use usrp_atsc.Common.{
  ℕ, ◌+◌, ◌-◌, ◌^◌, ◌<◌, ◌≡◌, ◌≢◌, sym, ap, ◌∙◌, arith, ◌==◌, ltb, if◌then◌else◌, ◌++◌, length,
  length-replicate, get_or, replicate,
}
use native.Mathlib.Nat.{one-le-pow}
use usrp_atsc.RingBuffer.{Producer, Consumer, RingBuffer, new_ring_buffer, is_full, is_empty}
use usrp_atsc.RingBuffer.Window.{next_index-turn, ahead, ahead_lem, ahead-zero, window, window-zero}

-- The buffer holds `len` items from the tail on, and no step is taken twice.
pub record IsSafe (capacity : ℕ) (r : RingBuffer) : Type 0 where
  pub len : ℕ
  pub room : len < capacity
  pub cells : length r.buffer ≡ capacity
  pub tail_in : r.tail < capacity
  pub head_at : r.head ≡ ahead capacity r.tail len
  pub items : r.pushed ≡ r.popped ++ window capacity r.buffer r.tail len
  pub push_room : (item : ℕ) → r.producer ≡ Producer.checked item → len + 1 < capacity
  pub push_done :
      (item : ℕ)
      → r.producer ≡ Producer.written item
      → (len + 1 < capacity) × (get_or r.buffer r.head 0 ≡ item)
  pub pop_some : r.consumer ≡ Consumer.checked → 0 < len
  pub pop_item :
      (item : ℕ) → r.consumer ≡ Consumer.taken item → (0 < len) × (get_or r.buffer r.tail 0 ≡ item)

module _ (k : ℕ) where
  pub IsSafe-new : IsSafe (2 ^ k) (new_ring_buffer (2 ^ k))
  IsSafe-new = record {
    len = 0;
    room = one-le-pow k 2 (omega arith);
    cells = length-replicate (2 ^ k) 0;
    tail_in = one-le-pow k 2 (omega arith);
    head_at = sym (ahead-zero (2 ^ k) 0);
    items = sym (window-zero (2 ^ k) (replicate (2 ^ k) 0) 0);
    push_room = λ item h. cc;
    push_done = λ item h. cc;
    pop_some = λ h. cc;
    pop_item = λ item h. cc;
  }

  module _ (r : RingBuffer) (s : IsSafe (2 ^ k) r) where
    pub head_value :
        r.head ≡ (if ltb (r.tail + s.len) (2 ^ k) then r.tail + s.len else r.tail + s.len - 2 ^ k)
    head_value = s.head_at ∙ ahead_lem (2 ^ k) r.tail s.len s.tail_in s.room

    pub head_in : r.head < 2 ^ k
    head_in = ground (arith, head_value, s.tail_in, s.room)

    pub is_full-len : is_full (2 ^ k) r ≡ (s.len + 1 == 2 ^ k)
    unfolding is_full
    is_full-len =
        ap (λ n. n == r.tail) (next_index-turn k r.head head_in)
        ∙ ground (arith, head_value, s.tail_in, s.room)

    pub is_empty-len : is_empty r ≡ (s.len == 0)
    unfolding is_empty
    is_empty-len = ground (arith, head_value, s.tail_in, s.room)

    -- The place at the head is none of the places in use.
    pub head_free : (m : ℕ) → m < s.len → ahead (2 ^ k) r.tail m ≢ r.head
    head_free m low e =
        let at = ahead_lem (2 ^ k) r.tail m s.tail_in (omega (arith, low, s.room)) in
        absurd (ground (arith, at, e, head_value, low, s.room, s.tail_in))
