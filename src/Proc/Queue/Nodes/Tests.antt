-- ===== src/Proc/Queue/Nodes/Tests.antt =====
-- lib/queue.c: a run of a queue, and the theorem at it.
use raincloud.Prelude.{◌≡◌, refl, none, some, List, [], ◌∷◌, arith}
use raincloud.Links.Moves.{list_init-IsRing}
use raincloud.Proc.Queue.Nodes.{
  NodeQueue, HasNodes, QueueCall, enqueue, dequeue, queue_init, results, first_in_first_out,
  results-first_in_first_out,
}

abbrev empty : NodeQueue
empty = queue_init 8 (record { next = λ p. 0; prev = λ p. 0 })

abbrev calls : List QueueCall
calls = enqueue 100 7 ∷ enqueue 200 9 ∷ dequeue ∷ enqueue 100 5 ∷ dequeue ∷ dequeue ∷ dequeue ∷ []

empty_nodes : HasNodes empty []
unfolding queue_init
empty_nodes = record {
  ring = list_init-IsRing 8 (record { next = λ p. 0; prev = λ p. 0 });
  count = refl;
}

taken : first_in_first_out [] calls ≡ some 7 ∷ some 9 ∷ some 5 ∷ none ∷ []
unfolding first_in_first_out
taken = refl

results-first_in_first_out_example : results empty calls ≡ first_in_first_out [] calls
unfolding queue_init
results-first_in_first_out_example =
    results-first_in_first_out empty [] calls empty_nodes
      (
        (omega arith, tt),
        ((omega arith, (omega arith, tt)), ((omega arith, (omega arith, tt)), tt)),
      )
      (omega arith)
