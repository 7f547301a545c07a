-- ===== src/Proc/Queue.antt =====
-- lib/queue.c: the queue of pointers that the scheduler keeps its threads in.
pub mod Fifo
pub mod Nodes
use raincloud.Prelude.{
  ℕ, Bool, Option, none, some, List, [], ◌∷◌, ◌++◌, ◌==◌, if◌then◌else◌, add64, sub64,
}

-- `queue_t`: the contents of the nodes from the first to the last, and the counter.
pub record Queue {ℓ} (A : Type ℓ) : Type ℓ where
  pub items : List A
  pub length : ℕ

module _ {ℓ} {A : Type ℓ} where
  pub queue_init : Queue A
  queue_init = record { items = []; length = 0 }

  unfoldable pub queue_isempty : Queue A → Bool
  queue_isempty queue = queue.length == 0

  -- The node is added before the head, at the end.
  unfoldable pub queue_enqueue : Queue A → A → Queue A
  queue_enqueue queue content = record {
    items = queue.items ++ (content ∷ []);
    length = add64 queue.length 1;
  }

  -- The node behind the head is taken out; the list is empty only if the counter is wrong.
  unfoldable pub extract : List A → ℕ → Option A × Queue A
  extract [] count = (none, record { items = []; length = count })
  extract (x ∷ xs) count = (some x, record { items = xs; length = sub64 count 1 })

  -- `none` is NULL.
  unfoldable pub queue_dequeue : Queue A → Option A × Queue A
  unfolding extract queue_isempty
  queue_dequeue queue =
      if queue_isempty queue then (none, queue) else extract queue.items queue.length
