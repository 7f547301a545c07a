-- ===== src/Proc/Queue/Nodes.antt =====
-- lib/queue.c over the links of list.h: the nodes of a queue, and the order that they keep.
mod Tests
use raincloud.Prelude.{
  ℕ, zero, suc, ◌+◌, ◌^◌, ◌<◌, ◌≡◌, ◌≢◌, refl, sym, ap, ◌∙◌, Bool, true, false, Option, none, some,
  List, [], ◌∷◌, ◌++◌, ◌==◌, if◌then◌else◌, add64, sub64, map, length, length-append, arith, ==_iff,
}
use mathlib.Core.Path.{subst}
use raincloud.Links.{Links, store_at, list_init, list_add_before, list_del}
use raincloud.Links.Ring.{
  IsRing, Apart, AllApart, Agree, AllApart-one, Linked-Agree, store_at_self, store_at_ne,
}
use raincloud.Links.Moves.{list_init-IsRing, list_add_before-IsRing, list_del-IsRing}

-- `queue_t`, with the places of its nodes' links and contents. A node is named by the address of
-- its links, which begin it.
pub record NodeQueue : Type 0 where
  pub links : Links
  pub content : ℕ → ℕ
  pub head : ℕ
  pub length : ℕ

unfoldable pub queue_init : (head : ℕ) → Links → NodeQueue
queue_init head links = record {
  links = list_init head links;
  content = λ n. 0;
  head = head;
  length = 0;
}

unfoldable pub queue_isempty : NodeQueue → Bool
queue_isempty queue = queue.length == 0

-- `new_node` is the node that `malloc` gives.
unfoldable pub queue_enqueue : (new_node content : ℕ) → NodeQueue → NodeQueue
queue_enqueue new_node content queue = record queue {
  links = list_add_before queue.head new_node (list_init new_node queue.links);
  content = store_at new_node content queue.content;
  length = add64 queue.length 1;
}

unfoldable pub queue_dequeue : NodeQueue → Option ℕ × NodeQueue
unfolding queue_isempty
queue_dequeue queue =
    let extract = queue.links.next queue.head in
    if queue_isempty queue then (none, queue) else (
      some (queue.content extract),
      record queue { links = list_del extract queue.links; length = sub64 queue.length 1 },
    )

pub data QueueCall : Type 0 where
  enqueue : (new_node content : ℕ) → QueueCall
  dequeue : QueueCall

-- What the calls that take something out return, one after the other.
pub results : NodeQueue → List QueueCall → List (Option ℕ)
unfolding queue_enqueue queue_dequeue
results queue [] = []
results queue (enqueue n c ∷ calls) = results (queue_enqueue n c queue) calls
results queue (dequeue ∷ calls) =
    let (taken, rest) = queue_dequeue queue in taken ∷ results rest calls

-- The same of a list: what goes in first comes out first.
pub first_in_first_out : List ℕ → List QueueCall → List (Option ℕ)
first_in_first_out xs [] = []
first_in_first_out xs (enqueue n c ∷ calls) = first_in_first_out (xs ++ c ∷ []) calls
first_in_first_out [] (dequeue ∷ calls) = none ∷ first_in_first_out [] calls
first_in_first_out (x ∷ xs) (dequeue ∷ calls) = some x ∷ first_in_first_out xs calls

-- Each new node is none that is in the queue, nor its head.
abbrev pub Fresh : (head : ℕ) → (nodes : List ℕ) → List QueueCall → Type 0
Fresh head nodes [] = Unit {0}
Fresh head nodes (enqueue n c ∷ calls) = Apart n (head ∷ nodes) × Fresh head (nodes ++ n ∷ []) calls
Fresh head [] (dequeue ∷ calls) = Fresh head [] calls
Fresh head (n ∷ nodes) (dequeue ∷ calls) = Fresh head nodes calls

-- The queue has these nodes, and its counter says so.
pub record HasNodes (queue : NodeQueue) (nodes : List ℕ) : Type 0 where
  pub ring : IsRing queue.links queue.head nodes
  pub count : queue.length ≡ length nodes

list_init-Agree : (n : ℕ) (s : Links) → Agree s (list_init n s) (n ∷ []) (n ∷ [])
unfolding list_init
list_init-Agree n s = record {
  next_same = λ q apart. store_at_ne n n s.next apart.0;
  prev_same = λ q apart. store_at_ne n n s.prev apart.0;
}

IsRing-list_init :
    (s : Links) (h n : ℕ) (xs : List ℕ)
    → IsRing s h xs
    → Apart n (h ∷ xs)
    → IsRing (list_init n s) h xs
IsRing-list_init s h n xs r apart = record {
  linked =
      Linked-Agree s (list_init n s) (n ∷ []) (n ∷ []) h h xs (list_init-Agree n s)
        (AllApart-one n (h ∷ xs) apart) (AllApart-one n xs apart.1) ((λ e. apart.0 (sym e)), tt)
        r.linked;
  distinct = r.distinct;
}

map-store_at :
    (n c : ℕ) (f : ℕ → ℕ) (xs : List ℕ)
    → Apart n xs
    → map (store_at n c f) (xs ++ n ∷ []) ≡ map f xs ++ c ∷ []
map-store_at n c f [] apart = ap (λ v. v ∷ []) (store_at_self n c f)
map-store_at n c f (x ∷ xs) apart =
    rw (store_at_ne n c f (λ e. apart.0 (sym e)), map-store_at n c f xs apart.1) refl

queue_enqueue-HasNodes :
    (queue : NodeQueue) (n c : ℕ) (nodes : List ℕ)
    → HasNodes queue nodes
    → Apart n (queue.head ∷ nodes)
    → length nodes + 1 < 2 ^ 64
    → HasNodes (queue_enqueue n c queue) (nodes ++ n ∷ [])
unfolding queue_enqueue
queue_enqueue-HasNodes queue n c nodes has apart small = record {
  ring =
      list_add_before-IsRing (list_init n queue.links) queue.head n nodes
        (IsRing-list_init queue.links queue.head n nodes has.ring apart) apart;
  count = omega (arith, has.count, length-append nodes (n ∷ []));
}

-- A queue with a first node: that node is taken out.
queue_dequeue-HasNodes :
    (queue : NodeQueue) (n : ℕ) (nodes : List ℕ)
    → HasNodes queue (n ∷ nodes)
    → length nodes + 1 < 2 ^ 64
    → (rest : NodeQueue) × (queue_dequeue queue ≡ (some (queue.content n), rest))
      × HasNodes rest nodes
      × (rest.content ≡ queue.content)
      × (rest.head ≡ queue.head)
unfolding queue_dequeue
queue_dequeue-HasNodes queue n nodes has small =
    let some_left : queue_isempty queue ≡ false = rw has.count (ground arith) in
    (
      record queue { links = list_del n queue.links; length = sub64 queue.length 1 },
      rw (some_left, has.ring.linked.0) refl,
      record {
        ring = list_del-IsRing queue.links queue.head n [] nodes has.ring;
        count = omega (arith, has.count);
      },
      refl,
      refl,
    )

-- The nodes that are linked behind a head make a queue: over any calls with fresh nodes, what is
-- taken out is what a list would give, in the order in which it went in, and NULL when there is
-- nothing left.
pub results-first_in_first_out :
    (queue : NodeQueue) (nodes : List ℕ) (calls : List QueueCall)
    → HasNodes queue nodes
    → Fresh queue.head nodes calls
    → length nodes + length calls < 2 ^ 64
    → results queue calls ≡ first_in_first_out (map queue.content nodes) calls
unfolding results first_in_first_out
results-first_in_first_out queue nodes [] has fresh small = refl
results-first_in_first_out queue nodes (enqueue n c ∷ calls) has fresh small =
    results-first_in_first_out (queue_enqueue n c queue) (nodes ++ n ∷ []) calls
      (queue_enqueue-HasNodes queue n c nodes has fresh.0 (omega arith)) fresh.1
      (omega (arith, length-append nodes (n ∷ [])))
    ∙ ap (λ xs. first_in_first_out xs calls) (map-store_at n c queue.content nodes fresh.0.1)
results-first_in_first_out queue [] (dequeue ∷ calls) has fresh small =
    let empty : queue_isempty queue ≡ true = rw has.count refl in
    rw empty
      (ap (λ rs. none ∷ rs) (results-first_in_first_out queue [] calls has fresh (omega arith)))
results-first_in_first_out queue (n ∷ nodes) (dequeue ∷ calls) has fresh small =
    let (rest, taken, has', content, head) =
      queue_dequeue-HasNodes queue n nodes has (omega arith) in
    let later =
      results-first_in_first_out rest nodes calls has'
        (subst (λ h. Fresh h nodes calls) (sym head) fresh) (omega arith) in
    ap (λ (r : Option ℕ × NodeQueue). r.0 ∷ results r.1 calls) taken
    ∙ ap (λ rs. some (queue.content n) ∷ rs)
        (later ∙ ap (λ f. first_in_first_out (map f nodes) calls) content)
