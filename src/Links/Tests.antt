-- ===== src/Links/Tests.antt =====
-- include/list.h: a list that is made and changed, and the theorem at it.
use raincloud.Prelude.{◌≡◌, refl, some, [], ◌∷◌, arith}
use raincloud.Links.{Links, list_init, list_add_after, list_add_before, list_del, list_for_each}
use raincloud.Links.Ring.{IsRing}
use raincloud.Links.Moves.{
  Edits, unchanged, edited, at_end, at_front, taken_out, Edits-list_for_each,
}

abbrev empty : Links
empty = record { next = λ p. 0; prev = λ p. 0 }

-- 20 at the end, 30 at the end, 40 at the front, and 20 taken out again.
abbrev s0 : Links
s0 = list_init 8 empty

abbrev s1 : Links
s1 = list_add_before 8 20 s0

abbrev s2 : Links
s2 = list_add_before 8 30 s1

abbrev s3 : Links
s3 = list_add_after 8 40 s2

abbrev s4 : Links
s4 = list_del 20 s3

visited : list_for_each 9 (s4.next 8) 8 s4 ≡ some (40 ∷ 30 ∷ [])
unfolding list_init list_add_before list_add_after list_del list_for_each
visited = refl

edits : Edits 8 [] (40 ∷ 30 ∷ []) s0 s4
edits = edited [] (20 ∷ []) (40 ∷ 30 ∷ []) s0 s1 s4 (at_end [] 20 s0 (omega arith, tt)) (
    edited (20 ∷ []) (20 ∷ 30 ∷ []) (40 ∷ 30 ∷ []) s1 s2 s4
      (at_end (20 ∷ []) 30 s1 (omega arith, (omega arith, tt)))
      (edited (20 ∷ 30 ∷ []) (40 ∷ 20 ∷ 30 ∷ []) (40 ∷ 30 ∷ []) s2 s3 s4
        (at_front (20 ∷ 30 ∷ []) 40 s2 (omega arith, (omega arith, (omega arith, tt))))
        (edited (40 ∷ 20 ∷ 30 ∷ []) (40 ∷ 30 ∷ []) (40 ∷ 30 ∷ []) s3 s4 s4
          (taken_out (40 ∷ 20 ∷ 30 ∷ []) (40 ∷ []) (30 ∷ []) 20 s3 refl)
          (unchanged (40 ∷ 30 ∷ []) s4))))

Edits-list_for_each_example :
    IsRing s4 8 (40 ∷ 30 ∷ []) × (list_for_each 3 (s4.next 8) 8 s4 ≡ some (40 ∷ 30 ∷ []))
Edits-list_for_each_example = Edits-list_for_each 8 (40 ∷ 30 ∷ []) empty s4 edits
