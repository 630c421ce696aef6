-- ===== src/RingBuffer/Steps.antt =====
-- Every step of a ring buffer keeps it safe.
use usrp_atsc.Common.{
  ℕ, suc, ◌-◌, ◌^◌, ◌<◌, ◌≡◌, sym, ap, ◌∙◌, arith, if-case, [], ◌∷◌, ◌++◌, append_assoc, length-set,
  get_or, get_or-set_self, get_or-set_ne,
}
use mathlib.Core.Path.{ap₂, subst}
use usrp_atsc.RingBuffer.{
  Producer, Consumer, RingBuffer, next_index, is_full, is_empty, push_check, push_write,
  push_publish, pop_check, pop_take, pop_release, Step, Reachable,
}
use usrp_atsc.RingBuffer.Window.{
  turn, next_index-turn, ahead, ahead-last, ahead-suc, ahead-zero, window, window-last,
  window-first, window-set,
}
use usrp_atsc.RingBuffer.Safety.{IsSafe, IsSafe-new, head_in, is_full-len, is_empty-len, head_free}

module _ (k : ℕ) (r : RingBuffer) (s : IsSafe (2 ^ k) r) where
  IsSafe-check_push :
      (item : ℕ) → r.producer ≡ Producer.idle → IsSafe (2 ^ k) (push_check (2 ^ k) r item)
  unfolding push_check
  IsSafe-check_push item idle =
      if-case (IsSafe (2 ^ k)) (is_full (2 ^ k) r) (λ full. s)
        (λ free. record {
          len = s.len;
          room = s.room;
          cells = s.cells;
          tail_in = s.tail_in;
          head_at = s.head_at;
          items = s.items;
          push_room = λ i h. ground (arith, sym (is_full-len k r s) ∙ free, s.room);
          push_done = λ i h. cc;
          pop_some = s.pop_some;
          pop_item = s.pop_item;
        })

  IsSafe-write :
      (item : ℕ) → r.producer ≡ Producer.checked item → IsSafe (2 ^ k) (push_write r item)
  unfolding push_write
  IsSafe-write item h =
      let free = s.push_room item h in
      record {
        len = s.len;
        room = s.room;
        cells = length-set r.buffer r.head item ∙ s.cells;
        tail_in = s.tail_in;
        head_at = s.head_at;
        items =
            s.items
            ∙ ap (λ w. r.popped ++ w)
                (sym (window-set (2 ^ k) r.buffer r.tail s.len r.head item (head_free k r s)));
        push_room = λ i e. cc;
        push_done = λ i e. (
          free,
          get_or-set_self r.buffer r.head item 0 (omega (arith, head_in k r s, s.cells))
              ∙ same_item e,
        );
        pop_some = s.pop_some;
        pop_item = λ i e.
            let (some_item, at) = s.pop_item i e in
            (
              some_item,
              get_or-set_ne r.buffer r.head r.tail item 0
                    (λ q. head_free k r s 0 some_item (ahead-zero (2 ^ k) r.tail ∙ sym q))
                  ∙ at,
            );
      }
    where
      same_item : {i : ℕ} → Producer.written item ≡ Producer.written i → item ≡ i
      same_item e = cc

  IsSafe-publish :
      (item : ℕ) → r.producer ≡ Producer.written item → IsSafe (2 ^ k) (push_publish (2 ^ k) r item)
  unfolding push_publish
  IsSafe-publish item h =
      let (free, at) = s.push_done item h in
      record {
        len = suc s.len;
        room = omega (arith, free);
        cells = s.cells;
        tail_in = s.tail_in;
        head_at =
            next_index-turn k r.head (head_in k r s)
            ∙ ap (turn (2 ^ k)) s.head_at
            ∙ sym (ahead-last (2 ^ k) r.tail s.len);
        items =
            ap (λ w. w ++ item ∷ []) s.items
            ∙ append_assoc r.popped (window (2 ^ k) r.buffer r.tail s.len) (item ∷ [])
            ∙ ap (λ i. r.popped ++ (window (2 ^ k) r.buffer r.tail s.len ++ i ∷ []))
                (sym at ∙ ap (λ p. get_or r.buffer p 0) s.head_at)
            ∙ ap (λ w. r.popped ++ w) (sym (window-last (2 ^ k) r.buffer r.tail s.len));
        push_room = λ i e. cc;
        push_done = λ i e. cc;
        pop_some = λ e. omega arith;
        pop_item = λ i e. (omega arith, (s.pop_item i e).1);
      }

  IsSafe-check_pop : r.consumer ≡ Consumer.idle → IsSafe (2 ^ k) (pop_check r)
  unfolding pop_check
  IsSafe-check_pop idle =
      if-case (IsSafe (2 ^ k)) (is_empty r) (λ empty. s)
        (λ full. record {
          len = s.len;
          room = s.room;
          cells = s.cells;
          tail_in = s.tail_in;
          head_at = s.head_at;
          items = s.items;
          push_room = s.push_room;
          push_done = s.push_done;
          pop_some = λ h. ground (arith, sym (is_empty-len k r s) ∙ full);
          pop_item = λ i h. cc;
        })

  IsSafe-take : r.consumer ≡ Consumer.checked → IsSafe (2 ^ k) (pop_take r)
  unfolding pop_take
  IsSafe-take h = record {
    len = s.len;
    room = s.room;
    cells = s.cells;
    tail_in = s.tail_in;
    head_at = s.head_at;
    items = s.items;
    push_room = s.push_room;
    push_done = s.push_done;
    pop_some = λ e. cc;
    pop_item = λ i e. (s.pop_some h, same_item e);
  }
    where
      same_item : {i j : ℕ} → Consumer.taken i ≡ Consumer.taken j → i ≡ j
      same_item e = cc

  released :
      (item n : ℕ)
      → s.len ≡ suc n
      → get_or r.buffer r.tail 0 ≡ item
      → IsSafe (2 ^ k) (pop_release (2 ^ k) r item)
  unfolding pop_release
  released item n e at =
      let turned = next_index-turn k r.tail s.tail_in in
      record {
        len = n;
        room = omega (arith, s.room, e);
        cells = s.cells;
        tail_in = subst (λ t. t < 2 ^ k) (sym turned) (ground (arith, s.tail_in));
        head_at =
            s.head_at
            ∙ ap (ahead (2 ^ k) r.tail) e
            ∙ ahead-suc (2 ^ k) r.tail n
            ∙ ap (λ t. ahead (2 ^ k) t n) (sym turned);
        items =
            s.items
            ∙ ap (λ l. r.popped ++ window (2 ^ k) r.buffer r.tail l) e
            ∙ ap (λ w. r.popped ++ w) (window-first (2 ^ k) r.buffer r.tail n)
            ∙ ap₂ (λ i t. r.popped ++ i ∷ window (2 ^ k) r.buffer t n) at (sym turned)
            ∙ sym (
                append_assoc r.popped (item ∷ [])
                  (window (2 ^ k) r.buffer (next_index (2 ^ k) r.tail) n));
        push_room = λ i h. omega (arith, s.push_room i h, e);
        push_done = λ i h. let (free, there) = s.push_done i h in (omega (arith, free, e), there);
        pop_some = λ h. cc;
        pop_item = λ i h. cc;
      }

  IsSafe-release :
      (item : ℕ) → r.consumer ≡ Consumer.taken item → IsSafe (2 ^ k) (pop_release (2 ^ k) r item)
  IsSafe-release item h =
      let (some_item, at) = s.pop_item item h in
      released item (s.len - 1) (omega (arith, some_item)) at

IsSafe-Step : (k : ℕ) (r r' : RingBuffer) → IsSafe (2 ^ k) r → Step (2 ^ k) r r' → IsSafe (2 ^ k) r'
IsSafe-Step k r _ s (Step.check_push _ item h) = IsSafe-check_push k r s item h
IsSafe-Step k r _ s (Step.write _ item h) = IsSafe-write k r s item h
IsSafe-Step k r _ s (Step.publish _ item h) = IsSafe-publish k r s item h
IsSafe-Step k r _ s (Step.check_pop _ h) = IsSafe-check_pop k r s h
IsSafe-Step k r _ s (Step.take _ h) = IsSafe-take k r s h
IsSafe-Step k r _ s (Step.release _ item h) = IsSafe-release k r s item h

pub IsSafe-Reachable : (k : ℕ) (r : RingBuffer) → Reachable (2 ^ k) r → IsSafe (2 ^ k) r
IsSafe-Reachable k _ Reachable.start = IsSafe-new k
IsSafe-Reachable k r (Reachable.next r0 _ before step) =
    IsSafe-Step k r0 r (IsSafe-Reachable k r0 before) step
