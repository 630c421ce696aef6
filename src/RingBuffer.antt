-- ===== src/RingBuffer.antt =====
-- The ring buffer of av/ring_buffer.h, class template `RingBuffer`, for a capacity of 2 ^ k. The
-- producer and the consumer are threads; what a thread does to the shared state is a step, and every
-- step has at most one access to a variable that the other thread writes.
pub mod Window
pub mod Safety
pub mod Steps
pub mod Runs
mod Tests
use usrp_atsc.Common.{
  ℕ, zero, suc, ◌+◌, ◌-◌, ◌%◌, ◌^◌, ◌≡◌, ◌==◌, if◌then◌else◌, Bool, true, false, List, [], ◌∷◌,
  ◌++◌, get_or, set, replicate, Option, none, some,
}
use Prim.Native.Nat.{bit_and}
use mathlib.Core.Option

-- Where `push` and `pop` stand: before the test, after it, and after the access to the buffer.
pub data Producer : Type 0 where
  idle : Producer
  checked : ℕ → Producer
  written : ℕ → Producer

pub data Consumer : Type 0 where
  idle : Consumer
  checked : Consumer
  taken : ℕ → Consumer

-- An item is its number. `pushed` and `popped` are the items of the calls that have returned them.
pub record RingBuffer : Type 0 where
  pub buffer : List ℕ
  pub head : ℕ
  pub tail : ℕ
  pub producer : Producer
  pub consumer : Consumer
  pub pushed : List ℕ
  pub popped : List ℕ

-- `(i + 1) & (Capacity - 1)`
unfoldable pub next_index : ℕ → ℕ → ℕ
next_index capacity i = bit_and (i + 1) (capacity - 1)

-- `RingBuffer()`
abbrev pub new_ring_buffer : ℕ → RingBuffer
new_ring_buffer capacity = record {
  buffer = replicate capacity 0;
  head = 0;
  tail = 0;
  producer = Producer.idle;
  consumer = Consumer.idle;
  pushed = [];
  popped = [];
}

-- `full` and `empty`
unfoldable pub is_full : ℕ → RingBuffer → Bool
unfolding next_index
is_full capacity r = next_index capacity r.head == r.tail

unfoldable pub is_empty : RingBuffer → Bool
is_empty r = r.head == r.tail

-- `push` up to its test; a full buffer ends the call.
unfoldable pub push_check : ℕ → RingBuffer → ℕ → RingBuffer
unfolding is_full
push_check capacity r item =
    if is_full capacity r then r else record r { producer = Producer.checked item }

-- The write, and the store of the new head.
unfoldable pub push_write : RingBuffer → ℕ → RingBuffer
push_write r item = record r { buffer = set r.buffer r.head item; producer = Producer.written item }

unfoldable pub push_publish : ℕ → RingBuffer → ℕ → RingBuffer
unfolding next_index
push_publish capacity r item = record r {
  head = next_index capacity r.head;
  producer = Producer.idle;
  pushed = r.pushed ++ item ∷ [];
}

-- `pop` up to its test; an empty buffer ends the call.
unfoldable pub pop_check : RingBuffer → RingBuffer
unfolding is_empty
pop_check r = if is_empty r then r else record r { consumer = Consumer.checked }

-- The read, and the store of the new tail.
unfoldable pub pop_take : RingBuffer → RingBuffer
pop_take r = record r { consumer = Consumer.taken (get_or r.buffer r.tail 0) }

unfoldable pub pop_release : ℕ → RingBuffer → ℕ → RingBuffer
unfolding next_index
pop_release capacity r item = record r {
  tail = next_index capacity r.tail;
  consumer = Consumer.idle;
  popped = r.popped ++ item ∷ [];
}

-- A call of `push` and of `pop` that no other step comes between.
unfoldable pub push : ℕ → RingBuffer → ℕ → Bool × RingBuffer
unfolding is_full push_write push_publish
push capacity r item =
    if is_full capacity r
    then (false, r)
    else (true, push_publish capacity (push_write r item) item)

unfoldable pub pop : ℕ → RingBuffer → Option ℕ × RingBuffer
unfolding is_empty pop_release
pop capacity r =
    if is_empty r
    then (none, r)
    else (let item = get_or r.buffer r.tail 0 in (some item, pop_release capacity r item))

-- `peek`, `size` and `clear`
unfoldable pub peek : RingBuffer → Option ℕ
unfolding is_empty
peek r = if is_empty r then none else some (get_or r.buffer r.tail 0)

unfoldable pub ring_size : ℕ → RingBuffer → ℕ
ring_size capacity r = bit_and ((r.head + (2 ^ 64 - r.tail)) % 2 ^ 64) (capacity - 1)

unfoldable pub clear_ring : RingBuffer → RingBuffer
clear_ring r = record r { tail = r.head }

-- The steps of both threads, in any order.
pub data Step (capacity : ℕ) : RingBuffer → RingBuffer → Type 0 where
  check_push :
      (r : RingBuffer) (item : ℕ)
      → r.producer ≡ Producer.idle
      → Step capacity r (push_check capacity r item)
  write :
      (r : RingBuffer) (item : ℕ)
      → r.producer ≡ Producer.checked item
      → Step capacity r (push_write r item)
  publish :
      (r : RingBuffer) (item : ℕ)
      → r.producer ≡ Producer.written item
      → Step capacity r (push_publish capacity r item)
  check_pop : (r : RingBuffer) → r.consumer ≡ Consumer.idle → Step capacity r (pop_check r)
  take : (r : RingBuffer) → r.consumer ≡ Consumer.checked → Step capacity r (pop_take r)
  release :
      (r : RingBuffer) (item : ℕ)
      → r.consumer ≡ Consumer.taken item
      → Step capacity r (pop_release capacity r item)

pub data Reachable (capacity : ℕ) : RingBuffer → Type 0 where
  start : Reachable capacity (new_ring_buffer capacity)
  next : (r r' : RingBuffer) → Reachable capacity r → Step capacity r r' → Reachable capacity r'
