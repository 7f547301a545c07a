-- ===== src/Links/Moves.antt =====
-- include/list.h: adding, deleting and visiting the entries of a list.
use raincloud.Prelude.{
  ℕ, zero, suc, ◌+◌, ◌<◌, ◌≡◌, ◌≢◌, refl, sym, ap, false, some, List, [], ◌∷◌, ◌++◌, ◌==◌, ==_iff,
  arith, length,
}
use mathlib.Core.List.{append-nil}
use mathlib.Core.Path.{subst}
use raincloud.Links.{
  also_on, Links, link_between, link_over, list_init, list_add_after, list_add_before, list_del,
  list_for_each,
}
use raincloud.Links.Ring.{
  Linked, Apart, Distinct, IsRing, Linked-Agree, last, store_at_self, insert_last, redirect_last,
  Distinct-append, Distinct-join, AllApart-one, AllApart-cons, Apart-AllApart, Linked-append,
  last-Apart, Linked-split, Linked-last, link_between-Agree, link_over-Agree,
}

pub list_init-IsRing : (h : ℕ) (s : Links) → IsRing (list_init h s) h []
unfolding list_init
list_init-IsRing h s = record {
  linked = (store_at_self h h s.next, store_at_self h h s.prev);
  distinct = (tt, tt);
}

-- A new entry is put at the end of the list by `list_add_before` its head.
pub list_add_before-IsRing :
    (s : Links) (h new : ℕ) (xs : List ℕ)
    → IsRing s h xs
    → Apart new (h ∷ xs)
    → IsRing (list_add_before h new s) h (xs ++ new ∷ [])
unfolding list_add_before
list_add_before-IsRing s h new xs r fresh = record {
  linked =
      insert_last s h h (s.prev h) new xs (Linked-last s h h xs r.linked) fresh fresh.0 r.distinct
        r.distinct.0 r.linked;
  distinct =
      Distinct-join (h ∷ xs) (new ∷ []) r.distinct (tt, tt) (AllApart-one new (h ∷ xs) fresh);
}

-- A new entry is put at the front by `list_add_after`.
pub list_add_after-IsRing :
    (s : Links) (h new : ℕ) (xs : List ℕ)
    → IsRing s h xs
    → Apart new (h ∷ xs)
    → IsRing (list_add_after h new s) h (new ∷ xs)
unfolding list_add_after
list_add_after-IsRing s h new [] r fresh =
    subst (λ (n : ℕ). IsRing (link_between h n new s) h (new ∷ [])) (sym r.linked.0)
      (record {
        linked = insert_last s h h h new [] refl fresh fresh.0 r.distinct tt r.linked;
        distinct = (((λ e. fresh.0 (sym e)), tt), (tt, tt));
      })
list_add_after-IsRing s h new (x ∷ xs) r fresh =
    let front =
      insert_last s h x h new [] refl (fresh.0, tt) fresh.1.0 (tt, tt) tt
        (r.linked.0, r.linked.1) in
    let kept =
      Linked-Agree s (link_between h x new s) (h ∷ new ∷ []) (x ∷ new ∷ []) x h xs
        (link_between-Agree h x new s)
        (Apart-AllApart h (new ∷ []) (x ∷ xs) r.distinct.0 (AllApart-one new (x ∷ xs) fresh.1))
        (Apart-AllApart x (new ∷ []) xs r.distinct.1.0 (AllApart-one new xs fresh.1.1))
        (r.distinct.0.0, ((λ e. fresh.0 (sym e)), tt)) r.linked.2 in
    subst (λ (n : ℕ). IsRing (link_between h n new s) h (new ∷ x ∷ xs)) (sym r.linked.0)
      (record {
        linked = (front.0, front.1, (front.2.0, front.2.1, kept));
        distinct = (((λ e. fresh.0 (sym e)), r.distinct.0), (fresh.1, r.distinct.1));
      })

ne-eqb : {a b : ℕ} → a ≢ b → (a == b) ≡ false
ne-eqb apart = ground (arith, apart)

list_del-link :
    (s : Links) (e p n : ℕ) → s.prev e ≡ p → s.next e ≡ n → list_del e s ≡ link_over p n s
unfolding list_del
list_del-link s e p n pe ne = rw (pe, ne) refl

-- What is left of places that are distinct when one is taken out.
Distinct-del : (xs : List ℕ) (e : ℕ) (ys : List ℕ) → Distinct (xs ++ e ∷ ys) → Distinct (xs ++ ys)
Distinct-del xs e ys d =
    let (one, two, cross) = Distinct-append xs (e ∷ ys) d in
    Distinct-join xs ys one two.1 (AllApart-cons xs e ys cross).1

-- An entry is taken out, and the others stay in their order.
pub list_del-IsRing :
    (s : Links) (h e : ℕ) (xs ys : List ℕ)
    → IsRing s h (xs ++ e ∷ ys)
    → IsRing (list_del e s) h (xs ++ ys)
list_del-IsRing s h e xs [] r =
    let (one, two) = Linked-split s h e h xs [] r.linked in
    let before = Distinct-append (h ∷ xs) (e ∷ []) r.distinct in
    subst (λ t. IsRing t h (xs ++ []))
      (sym (list_del-link s e (last h xs) h (Linked-last s h e xs one) two.0))
      (record {
        linked =
            subst (λ zs. Linked (link_over (last h xs) h s) h zs h) (sym (append-nil xs))
              (redirect_last s h e (last h xs) h xs refl before.0 before.0.0 one);
        distinct = Distinct-del (h ∷ xs) e [] r.distinct;
      })
list_del-IsRing s h e xs (y ∷ ys) r =
    let (one, two) = Linked-split s h e h xs (y ∷ ys) r.linked in
    let (front, back, cross) = Distinct-append (h ∷ xs) (e ∷ y ∷ ys) r.distinct in
    let behind = (AllApart-cons (h ∷ xs) e (y ∷ ys) cross).1 in
    let p = last h xs in
    let start =
      redirect_last s h e p y xs refl front (AllApart-cons (h ∷ xs) y ys behind).0.1 one in
    let kept =
      Linked-Agree s (link_over p y s) (p ∷ []) (y ∷ []) y h ys (link_over-Agree p y s)
        (AllApart-one p (y ∷ ys) (last-Apart h xs (y ∷ ys) behind)) (AllApart-one y ys back.1.0)
        (behind.0.0, tt) two.2 in
    subst (λ t. IsRing t h (xs ++ y ∷ ys))
      (sym (list_del-link s e p y (Linked-last s h e xs one) two.0))
      (record {
        linked = Linked-append (link_over p y s) h y h xs ys start kept;
        distinct = Distinct-del (h ∷ xs) e (y ∷ ys) r.distinct;
      })

-- The cursor is on each entry of the list once, in order, and the loop ends.
pub list_for_each-IsRing :
    (fuel : ℕ) (s : Links) (h : ℕ) (xs : List ℕ)
    → IsRing s h xs
    → length xs < fuel
    → list_for_each fuel (s.next h) h s ≡ some xs
unfolding list_for_each
list_for_each-IsRing fuel s h xs r enough = visits fuel h xs r.linked r.distinct.0 enough
  where
    visits :
        (fuel a : ℕ) (xs : List ℕ)
        → Linked s a xs h
        → Apart h xs
        → length xs < fuel
        → list_for_each fuel (s.next a) h s ≡ some xs
    visits zero a xs linked apart enough = absurd (omega arith)
    visits (suc fuel) a [] linked apart enough =
        rw (linked.0, list_for_each, (==_iff h h).1 refl) refl
    visits (suc fuel) a (x ∷ xs) linked apart enough =
        rw (linked.0, list_for_each, ne-eqb (λ e. apart.0 (sym e)))
          (ap (also_on x) (visits fuel x xs linked.2 apart.1 (omega arith)))

-- The ways to change a list, and what they do to its entries.
pub data Edit (h : ℕ) : (xs ys : List ℕ) → (s t : Links) → Type 0 where
  at_end :
      (xs : List ℕ) (new : ℕ) (s : Links)
      → Apart new (h ∷ xs)
      → Edit h xs (xs ++ new ∷ []) s (list_add_before h new s)
  at_front :
      (xs : List ℕ) (new : ℕ) (s : Links)
      → Apart new (h ∷ xs)
      → Edit h xs (new ∷ xs) s (list_add_after h new s)
  taken_out :
      (xs front back : List ℕ) (e : ℕ) (s : Links)
      → xs ≡ front ++ e ∷ back
      → Edit h xs (front ++ back) s (list_del e s)

-- One after the other.
pub data Edits (h : ℕ) : (xs ys : List ℕ) → (s t : Links) → Type 0 where
  unchanged : (xs : List ℕ) (s : Links) → Edits h xs xs s s
  edited :
      (xs ys zs : List ℕ) (s t u : Links) → Edit h xs ys s t → Edits h ys zs t u → Edits h xs zs s u

Edit-IsRing :
    (h : ℕ) (xs ys : List ℕ) (s t : Links) → Edit h xs ys s t → IsRing s h xs → IsRing t h ys
Edit-IsRing h _ _ _ _ (at_end xs new s fresh) r = list_add_before-IsRing s h new xs r fresh
Edit-IsRing h _ _ _ _ (at_front xs new s fresh) r = list_add_after-IsRing s h new xs r fresh
Edit-IsRing h _ _ _ _ (taken_out xs front back e s same) r =
    list_del-IsRing s h e front back (subst (λ zs. IsRing s h zs) same r)

Edits-IsRing :
    (h : ℕ) (xs ys : List ℕ) (s t : Links) → Edits h xs ys s t → IsRing s h xs → IsRing t h ys
Edits-IsRing h _ _ _ _ (unchanged xs s) r = r
Edits-IsRing h _ _ _ _ (edited xs ys zs s t u e es) r =
    Edits-IsRing h ys zs t u es (Edit-IsRing h xs ys s t e r)

-- A list that is made empty and then changed in any way is a ring of exactly the entries that it
-- should have: a loop over it is on each of them once, in order, and ends.
pub Edits-list_for_each :
    (h : ℕ) (ys : List ℕ) (s t : Links)
    → Edits h [] ys (list_init h s) t
    → IsRing t h ys × (list_for_each (length ys + 1) (t.next h) h t ≡ some ys)
Edits-list_for_each h ys s t edits =
    let ring = Edits-IsRing h [] ys (list_init h s) t edits (list_init-IsRing h s) in
    (ring, list_for_each-IsRing (length ys + 1) t h ys ring (omega arith))
