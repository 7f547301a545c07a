-- ===== src/Links.antt =====
-- include/list.h: the doubly linked lists that are threaded through the kernel's objects. A
-- `struct list_head` is named by its address.
pub mod Ring
pub mod Moves
mod Tests
use raincloud.Prelude.{ℕ, zero, suc, Bool, Option, none, some, List, [], ◌∷◌, ◌==◌, if◌then◌else◌}

pub record Links : Type 0 where
  pub next : ℕ → ℕ
  pub prev : ℕ → ℕ

abbrev pub store_at : ℕ → ℕ → (ℕ → ℕ) → ℕ → ℕ
store_at p v f q = if q == p then v else f q

abbrev pub set_next : (p v : ℕ) → Links → Links
set_next p v s = record s { next = store_at p v s.next }

abbrev pub set_prev : (p v : ℕ) → Links → Links
set_prev p v s = record s { prev = store_at p v s.prev }

unfoldable pub list_init : (list : ℕ) → Links → Links
list_init list s = set_prev list list (set_next list list s)

-- `__list_add`.
abbrev pub link_between : (prev next new : ℕ) → Links → Links
link_between prev next new s =
    set_prev next new (set_next new next (set_next prev new (set_prev new prev s)))

unfoldable pub list_add_after : (list new : ℕ) → Links → Links
list_add_after list new s = link_between list (s.next list) new s

unfoldable pub list_add_before : (list new : ℕ) → Links → Links
list_add_before list new s = link_between (s.prev list) list new s

-- `__list_del`.
abbrev pub link_over : (prev next : ℕ) → Links → Links
link_over prev next s = set_prev next prev (set_next prev next s)

unfoldable pub list_del : (entry : ℕ) → Links → Links
list_del entry s = link_over (s.prev entry) (s.next entry) s

unfoldable pub list_replace : (old new : ℕ) → Links → Links
list_replace old new s =
    let s = set_next new (s.next old) s in
    let s = set_prev (s.next new) new s in
    let s = set_prev new (s.prev old) s in set_next (s.prev new) new s

unfoldable pub list_move : (head list : ℕ) → Links → Links
unfolding list_del list_add_after
list_move head list s = list_add_after head list (list_del list s)

unfoldable pub list_move_tail : (head list : ℕ) → Links → Links
unfolding list_del list_add_before
list_move_tail head list s = list_add_before head list (list_del list s)

unfoldable pub list_is_last : (head list : ℕ) → Links → Bool
list_is_last head list s = s.next list == head

unfoldable pub list_empty : (head : ℕ) → Links → Bool
list_empty head s = s.next head == head

-- `list_for_each`: the entries that the cursor is on, from `pos` up to the head; `none` where the
-- rounds do not suffice.
abbrev pub also_on : ℕ → Option (List ℕ) → Option (List ℕ)
also_on pos none = none
also_on pos (some visited) = some (pos ∷ visited)

unfoldable pub list_for_each : (fuel : ℕ) → (pos head : ℕ) → Links → Option (List ℕ)
list_for_each zero pos head s = none
list_for_each (suc fuel) pos head s =
    let rest = also_on pos (list_for_each fuel (s.next pos) head s) in
    if pos == head then some [] else rest
