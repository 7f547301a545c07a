-- ===== src/Proc/Queue/Fifo.antt =====
-- lib/queue.c: the counter is right, and what goes in comes out in the same order.
use raincloud.Prelude.{
  ◌+◌, ◌<◌, ◌^◌, ◌≡◌, refl, false, none, some, List, [], ◌∷◌, ◌++◌, arith, length, length-append,
}
use raincloud.Proc.Queue.{Queue, queue_isempty, queue_enqueue, queue_dequeue, extract}

module _ {ℓ} {A : Type ℓ} where
  -- The queue holds `xs`, and its counter says so.
  pub record Holds (queue : Queue A) (xs : List A) : Type ℓ where
    pub items : queue.items ≡ xs
    pub count : queue.length ≡ length xs
    pub small : length xs < 2 ^ 64

  pub queue_enqueue-Holds :
      {queue : Queue A} {xs : List A} (x : A)
      → Holds queue xs
      → length xs + 1 < 2 ^ 64
      → Holds (queue_enqueue queue x) (xs ++ (x ∷ []))
  unfolding queue_enqueue
  queue_enqueue-Holds {queue} {xs} x h fits = record {
    items = rw h.items;
    count = omega (arith, h.count, length-append xs (x ∷ []));
    small = omega (arith, length-append xs (x ∷ []));
  }

  queue_isempty-false : (queue : Queue A) → 0 < queue.length → queue_isempty queue ≡ false
  unfolding queue_isempty
  queue_isempty-false queue pos = ground arith

  pub queue_dequeue-Holds :
      {queue : Queue A} {x : A} {xs : List A}
      → Holds queue (x ∷ xs)
      → ((queue_dequeue queue).0 ≡ some x) × Holds (queue_dequeue queue).1 xs
  unfolding queue_dequeue extract
  queue_dequeue-Holds {queue} {x} {xs} h = rw (queue_isempty-false queue (omega (arith, h.count))) (
      rw h.items (
        refl,
        record {
          items = refl;
          count = omega (arith, h.count, h.small);
          small = omega (arith, h.small);
        },
      ))

  pub queue_dequeue-null : {queue : Queue A} → Holds queue [] → queue_dequeue queue ≡ (none, queue)
  unfolding queue_dequeue queue_isempty
  queue_dequeue-null {queue} h = rw h.count
