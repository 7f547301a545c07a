-- ===== src/Proc/Destroy.antt =====
-- proc/proc.c and proc/thread.c: `proc_destroy` and `thread_destroy`, over the links of list.h.
-- A process or a thread is named by its address, and each link by its own.
mod Tests
use raincloud.Prelude.{
  ℕ, zero, suc, ◌+◌, ◌-◌, ◌≡◌, ◌≢◌, refl, ap, ◌∙◌, Bool, true, false, Option, none, some, List, [],
  ◌∷◌, ◌++◌, ◌==◌, if◌then◌else◌, ==_iff, Bool-cases, inl, inr, arith, set, get_or,
}
use raincloud.Links.{Links, store_at, list_del, list_add_before, list_empty}
use raincloud.Links.Ring.{IsRing, store_at_self}
use raincloud.Links.Moves.{list_del-IsRing}
use raincloud.Proc.Ids.{pid_free, tid_free}

-- Where `list` and `child` stand in `proc_t`, and `list` in `thread_t`.
abbrev pub list_of : ℕ → ℕ
list_of proc = proc + 8

abbrev pub child_of : ℕ → ℕ
child_of proc = proc + 48

abbrev pub thread_list_of : ℕ → ℕ
thread_list_of thread = thread + 16

pub record Family : Type 0 where
  pub links : Links
  pub pid : ℕ → ℕ
  pub parent : ℕ → Option ℕ
  pub tid : ℕ → ℕ
  pub owner : ℕ → Option ℕ
  pub pid_table : List ℕ
  pub tid_table : List ℕ

-- It is done, the `assert` fails, or the rounds given do not suffice.
pub data Destroyed : Type 0 where
  done : Family → Destroyed
  assert_failed : Destroyed
  unfinished : Destroyed

-- One round of the loop over the children, with the cursor `it`. `proc->parent` is read again in
-- each round, and no round writes it; a `parent` is written where a process would begin eight bytes
-- before the cursor, also if none does.
abbrev pub give_child : (parent it : ℕ) → Family → Family
give_child parent it w = record w {
  parent = λ q. if q == it - 8 then some parent else w.parent q;
  links = list_add_before (child_of parent) it (list_del it w.links);
}

unfoldable pub give_children : (fuel : ℕ) → (proc parent it : ℕ) → Family → Destroyed
give_children zero proc parent it w = unfinished
give_children (suc fuel) proc parent it w =
    let w' = give_child parent it w in
    let rest = give_children fuel proc parent (w'.links.next it) w' in
    if it == child_of proc then done w else rest

abbrev pub destroy_child : (fuel : ℕ) → (proc : ℕ) → Option ℕ → Family → Destroyed
destroy_child fuel proc none w = assert_failed
destroy_child fuel proc (some parent) w =
    let w = record w { pid_table = pid_free (w.pid proc) w.pid_table } in
    if list_empty (child_of proc) w.links
    then done w
    else give_children fuel proc parent (w.links.next (child_of proc)) w

unfoldable pub proc_destroy : (fuel : ℕ) → (proc : ℕ) → Family → Destroyed
unfolding pid_free list_empty give_children
proc_destroy fuel proc w = destroy_child fuel proc (w.parent proc) w

abbrev pub leave_owner : (thread : ℕ) → Option ℕ → Family → Family
leave_owner thread none w = w
leave_owner thread (some proc) w = record w { links = list_del (thread_list_of thread) w.links }

unfoldable pub thread_destroy : (thread : ℕ) → Family → Family
unfolding tid_free
thread_destroy thread w =
    leave_owner thread (w.owner thread)
      (record w { tid_table = tid_free (w.tid thread) w.tid_table })

-- A thread of a process is taken off the list of its threads, which keeps the others in their
-- order, and its identifier is given back.
pub thread_destroy_lem :
    (thread proc h : ℕ) (w : Family) (xs ys : List ℕ)
    → w.owner thread ≡ some proc
    → IsRing w.links h (xs ++ thread_list_of thread ∷ ys)
    → IsRing (thread_destroy thread w).links h (xs ++ ys)
      × ((thread_destroy thread w).tid_table ≡ tid_free (w.tid thread) w.tid_table)
unfolding thread_destroy
thread_destroy_lem thread proc h w xs ys owned ring =
    rw owned (list_del-IsRing w.links h (thread_list_of thread) xs ys ring, refl)

-- The entry that is put before a head is followed by the head.
next-list_add_before : (h new : ℕ) (s : Links) → (list_add_before h new s).next new ≡ h
unfolding list_add_before
next-list_add_before h new s = store_at_self new h (store_at (s.prev h) new s.next)

-- With the cursor on the parent's head, it stays there.
stays :
    (fuel proc parent : ℕ) (w : Family)
    → child_of parent ≢ child_of proc
    → give_children fuel proc parent (child_of parent) w ≡ unfinished
unfolding give_children
stays zero proc parent w apart = refl
stays (suc fuel) proc parent w apart =
    let other : (child_of parent == child_of proc) ≡ false = ground (arith, apart) in
    let w' = give_child parent (child_of parent) w in
    let next =
      next-list_add_before (child_of parent) (child_of parent)
        (list_del (child_of parent) w.links) in
    rw (other, next) (stays fuel proc parent w' apart)

begins :
    (fuel proc parent it : ℕ) (w : Family)
    → child_of parent ≢ child_of proc
    → (it == child_of proc) ≡ false
    → give_children fuel proc parent it w ≡ unfinished
unfolding give_children
begins zero proc parent it w apart inside = refl
begins (suc fuel) proc parent it w apart inside =
    let next = next-list_add_before (child_of parent) it (list_del it w.links) in
    rw (inside, next) (stays fuel proc parent (give_child parent it w) apart)

-- Where a process has children, `proc_destroy` does not end: once the first child is on the list
-- of the parent, the cursor goes on there, to the head of that list, and stays on it. Without
-- children it gives the identifier back, and leaves all else as it was.
pub proc_destroy_lem :
    (fuel proc parent : ℕ) (w : Family)
    → w.parent proc ≡ some parent
    → proc ≢ parent
    → (if list_empty (child_of proc) w.links
        then proc_destroy fuel proc w
          ≡ done (record w { pid_table = pid_free (w.pid proc) w.pid_table })
        else proc_destroy fuel proc w ≡ unfinished)
unfolding proc_destroy
proc_destroy_lem fuel proc parent w given apart =
    elim (Bool-cases (list_empty (child_of proc) w.links)) [
      | inl none_left ↦ rw (none_left, given) (rw none_left refl)
      | inr some_left ↦
          let inside : (w.links.next (child_of proc) == child_of proc) ≡ false = some_left in
          let heads : child_of parent ≢ child_of proc = λ e. apart (omega (arith, e)) in
          rw (some_left, given)
            (rw some_left (
              begins fuel proc parent (w.links.next (child_of proc))
                (record w { pid_table = pid_free (w.pid proc) w.pid_table }) heads inside))
    ]
