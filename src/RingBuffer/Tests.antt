-- ===== src/RingBuffer/Tests.antt =====
-- A run of a ring buffer of capacity 4, with the steps of both threads mixed.
use usrp_atsc.Common.{ℕ, ◌+◌, ◌<◌, ◌≡◌, refl, ◌==◌, not, List, [], ◌∷◌, ◌++◌, length, none, some}
use usrp_atsc.RingBuffer.{
  RingBuffer, new_ring_buffer, push_check, push_write, push_publish, pop_check, pop_take,
  pop_release, push, pop, peek, ring_size, clear_ring, Step, Reachable,
}
use usrp_atsc.RingBuffer.Runs.{first_of, pushed-popped}

-- The producer has written 7, the consumer finds the buffer empty, the producer publishes 7, the consumer
-- passes its test, the producer starts with 8, and the consumer takes 7.
abbrev r1 : RingBuffer
r1 = push_check 4 (new_ring_buffer 4) 7

abbrev r2 : RingBuffer
r2 = push_write r1 7

abbrev r3 : RingBuffer
r3 = pop_check r2

abbrev r4 : RingBuffer
r4 = push_publish 4 r3 7

abbrev r5 : RingBuffer
r5 = pop_check r4

abbrev r6 : RingBuffer
r6 = push_check 4 r5 8

abbrev r7 : RingBuffer
r7 = push_write r6 8

abbrev r8 : RingBuffer
r8 = pop_take r7

abbrev r9 : RingBuffer
r9 = push_publish 4 r8 8

r9-Reachable : Reachable 4 r9
unfolding push_check push_write pop_check push_publish pop_take
r9-Reachable =
    Reachable.next r8 r9
      (Reachable.next r7 r8
        (Reachable.next r6 r7
          (Reachable.next r5 r6
            (Reachable.next r4 r5
              (Reachable.next r3 r4
                (Reachable.next r2 r3
                  (Reachable.next r1 r2
                    (Reachable.next (new_ring_buffer 4) r1 Reachable.start
                      (Step.check_push (new_ring_buffer 4) 7 refl))
                    (Step.write r1 7 refl))
                  (Step.check_pop r2 refl))
                (Step.publish r3 7 refl))
              (Step.check_pop r4 refl))
            (Step.check_push r5 8 refl))
          (Step.write r6 8 refl))
        (Step.take r7 refl))
      (Step.publish r8 8 refl)

pushed-popped_example :
    (queued : List ℕ) × (r9.pushed ≡ r9.popped ++ queued)
    × (length queued < 4)
    × ((push 4 r9 9).0 ≡ not (length queued + 1 == 4))
    × ((pop 4 r9).0 ≡ first_of queued)
    × (peek r9 ≡ first_of queued)
pushed-popped_example = pushed-popped 2 r9 9 r9-Reachable

r9_lem :
    (r9.pushed ≡ 7 ∷ 8 ∷ [])
    × ((pop 4 r9).0 ≡ some 7)
    × (ring_size 4 r9 ≡ 2)
    × (ring_size 4 (pop_release 4 r9 7) ≡ 1)
    × (peek (clear_ring r9) ≡ none)
unfolding pop peek ring_size clear_ring pop_release push_check push_write pop_check push_publish
    pop_take
r9_lem = (refl, refl, refl, refl, refl)
