-- ===== src/Links/Ring.antt =====
-- include/list.h: what the operations do to the ring of entries behind a head.
use raincloud.Prelude.{
  ℕ, ◌≡◌, ◌≢◌, refl, sym, ap, ◌∙◌, List, [], ◌∷◌, ◌++◌, ◌==◌, ==_iff, Bool-cases, inl, inr,
}
use raincloud.Links.{Links, store_at, link_between, link_over}

-- The entries between `a` and `b`, linked both ways.
abbrev pub Linked : Links → (a : ℕ) → List ℕ → (b : ℕ) → Type 0
Linked s a [] b = (s.next a ≡ b) × (s.prev b ≡ a)
Linked s a (x ∷ xs) b = (s.next a ≡ x) × (s.prev x ≡ a) × Linked s x xs b

abbrev pub Apart : ℕ → List ℕ → Type 0
Apart a [] = Unit {0}
Apart a (x ∷ xs) = (a ≢ x) × Apart a xs

abbrev pub Distinct : List ℕ → Type 0
Distinct [] = Unit {0}
Distinct (x ∷ xs) = Apart x xs × Distinct xs

-- The list of a head: its entries in order, none of them twice, and none the head.
pub record IsRing (s : Links) (h : ℕ) (xs : List ℕ) : Type 0 where
  pub linked : Linked s h xs h
  pub distinct : Distinct (h ∷ xs)

abbrev pub last : ℕ → List ℕ → ℕ
last a [] = a
last a (x ∷ xs) = last x xs

pub store_at_self : (p v : ℕ) (f : ℕ → ℕ) → store_at p v f p ≡ v
store_at_self p v f = rw ((==_iff p p).1 refl) refl

pub store_at_ne : (p v : ℕ) (f : ℕ → ℕ) {q : ℕ} → q ≢ p → store_at p v f q ≡ f q
store_at_ne p v f {q} other = elim (Bool-cases (q == p)) [
  | inl same ↦ absurd (other ((==_iff q p).0 same))
  | inr apart ↦ rw apart refl
]

Apart-last : (q a : ℕ) (xs : List ℕ) → Apart q (a ∷ xs) → q ≢ last a xs
Apart-last q a [] apart = apart.0
Apart-last q a (x ∷ xs) apart = Apart-last q x xs apart.1

pub Linked-last : (s : Links) (a b : ℕ) (xs : List ℕ) → Linked s a xs b → s.prev b ≡ last a xs
Linked-last s a b [] linked = linked.1
Linked-last s a b (x ∷ xs) linked = Linked-last s x b xs linked.2

-- Each of the places is apart from the others.
abbrev pub AllApart : List ℕ → List ℕ → Type 0
AllApart [] ps = Unit {0}
AllApart (x ∷ xs) ps = Apart x ps × AllApart xs ps

AllApart-nil : (xs : List ℕ) → AllApart xs []
AllApart-nil [] = tt
AllApart-nil (x ∷ xs) = (tt, AllApart-nil xs)

pub Apart-AllApart : (p : ℕ) (ps xs : List ℕ) → Apart p xs → AllApart xs ps → AllApart xs (p ∷ ps)
Apart-AllApart p ps [] apart all = tt
Apart-AllApart p ps (x ∷ xs) apart all =
    ((λ e. apart.0 (sym e), all.0), Apart-AllApart p ps xs apart.1 all.1)

-- Links that differ only in the `next` of some places and the `prev` of some.
pub record Agree (s t : Links) (ps ns : List ℕ) : Type 0 where
  pub next_same : (q : ℕ) → Apart q ps → t.next q ≡ s.next q
  pub prev_same : (q : ℕ) → Apart q ns → t.prev q ≡ s.prev q

pub Linked-Agree :
    (s t : Links) (ps ns : List ℕ) (a b : ℕ) (xs : List ℕ)
    → Agree s t ps ns
    → AllApart (a ∷ xs) ps
    → AllApart xs ns
    → Apart b ns
    → Linked s a xs b
    → Linked t a xs b
Linked-Agree s t ps ns a b [] agree ap an nb (e, f) =
    (agree.next_same a ap.0 ∙ e, agree.prev_same b nb ∙ f)
Linked-Agree s t ps ns a b (x ∷ xs) agree ap an nb (e, f, more) = (
  agree.next_same a ap.0 ∙ e,
  agree.prev_same x an.0 ∙ f,
  Linked-Agree s t ps ns x b xs agree ap.1 an.1 nb more,
)

-- What `link_between` does, if the new place is not one of the two.
pub link_between-Agree :
    (p n new : ℕ) (s : Links) → Agree s (link_between p n new s) (p ∷ new ∷ []) (n ∷ new ∷ [])
link_between-Agree p n new s = record {
  next_same = λ q apart.
      store_at_ne new n (store_at p new s.next) apart.1.0 ∙ store_at_ne p new s.next apart.0;
  prev_same = λ q apart.
      store_at_ne n new (store_at new p s.prev) apart.0 ∙ store_at_ne new p s.prev apart.1.0;
}

pub link_over-Agree : (p n : ℕ) (s : Links) → Agree s (link_over p n s) (p ∷ []) (n ∷ [])
link_over-Agree p n s = record {
  next_same = λ q apart. store_at_ne p n s.next apart.0;
  prev_same = λ q apart. store_at_ne n p s.prev apart.0;
}

pub Linked-append :
    (s : Links) (a b c : ℕ) (xs ys : List ℕ)
    → Linked s a xs b
    → Linked s b ys c
    → Linked s a (xs ++ b ∷ ys) c
Linked-append s a b c [] ys one two = (one.0, one.1, two)
Linked-append s a b c (x ∷ xs) ys one two = (one.0, one.1, Linked-append s x b c xs ys one.2 two)

pub Linked-split :
    (s : Links) (a b c : ℕ) (xs ys : List ℕ)
    → Linked s a (xs ++ b ∷ ys) c
    → Linked s a xs b × Linked s b ys c
Linked-split s a b c [] ys linked = ((linked.0, linked.1), linked.2)
Linked-split s a b c (x ∷ xs) ys linked =
    let (one, two) = Linked-split s x b c xs ys linked.2 in ((linked.0, linked.1, one), two)

-- A place linked in between the last of some entries and the one behind them.
pub insert_last :
    (s : Links) (a b p new : ℕ) (xs : List ℕ)
    → p ≡ last a xs
    → Apart new (a ∷ xs)
    → new ≢ b
    → Distinct (a ∷ xs)
    → Apart b xs
    → Linked s a xs b
    → Linked (link_between p b new s) a (xs ++ new ∷ []) b
insert_last s a b p new [] e fresh nb distinct apart linked = (
  rw e (
      store_at_ne new b (store_at a new s.next) (λ q. fresh.0 (sym q))
      ∙ store_at_self a new s.next),
  store_at_ne b new (store_at new p s.prev) nb ∙ store_at_self new p s.prev ∙ e,
  (store_at_self new b (store_at p new s.next), store_at_self b new (store_at new p s.prev)),
)
insert_last s a b p new (x ∷ xs) e fresh nb distinct apart linked =
    let agree = link_between-Agree p b new s in
    let not_last : a ≢ p = rw e (Apart-last a x xs distinct.0) in
    (
      agree.next_same a (not_last, ((λ q. fresh.0 (sym q)), tt)) ∙ linked.0,
      agree.prev_same x ((λ q. apart.0 (sym q)), ((λ q. fresh.1.0 (sym q)), tt)) ∙ linked.1,
      insert_last s x b p new xs e fresh.1 nb distinct.1 apart.1 linked.2,
    )

-- The last of some entries linked over to another place.
pub redirect_last :
    (s : Links) (a e p n : ℕ) (xs : List ℕ)
    → p ≡ last a xs
    → Distinct (a ∷ xs)
    → Apart n xs
    → Linked s a xs e
    → Linked (link_over p n s) a xs n
redirect_last s a e p n [] same distinct apart linked =
    (rw same (store_at_self a n s.next), store_at_self n p s.prev ∙ same)
redirect_last s a e p n (x ∷ xs) same distinct apart linked =
    let agree = link_over-Agree p n s in
    let not_last : a ≢ p = rw same (Apart-last a x xs distinct.0) in
    (
      agree.next_same a (not_last, tt) ∙ linked.0,
      agree.prev_same x ((λ q. apart.0 (sym q)), tt) ∙ linked.1,
      redirect_last s x e p n xs same distinct.1 apart.1 linked.2,
    )

pub Apart-append : (a : ℕ) (xs ys : List ℕ) → Apart a (xs ++ ys) → Apart a xs × Apart a ys
Apart-append a [] ys apart = (tt, apart)
Apart-append a (x ∷ xs) ys apart =
    let (one, two) = Apart-append a xs ys apart.1 in ((apart.0, one), two)

pub Apart-join : (a : ℕ) (xs ys : List ℕ) → Apart a xs → Apart a ys → Apart a (xs ++ ys)
Apart-join a [] ys one two = two
Apart-join a (x ∷ xs) ys one two = (one.0, Apart-join a xs ys one.1 two)

pub Distinct-append :
    (xs ys : List ℕ) → Distinct (xs ++ ys) → Distinct xs × Distinct ys × AllApart xs ys
Distinct-append [] ys distinct = (tt, distinct, tt)
Distinct-append (x ∷ xs) ys distinct =
    let (one, two, cross) = Distinct-append xs ys distinct.1 in
    let (own, other) = Apart-append x xs ys distinct.0 in ((own, one), two, (other, cross))

pub Distinct-join :
    (xs ys : List ℕ) → Distinct xs → Distinct ys → AllApart xs ys → Distinct (xs ++ ys)
Distinct-join [] ys one two cross = two
Distinct-join (x ∷ xs) ys one two cross =
    (Apart-join x xs ys one.0 cross.0, Distinct-join xs ys one.1 two cross.1)

pub AllApart-one : (new : ℕ) (xs : List ℕ) → Apart new xs → AllApart xs (new ∷ [])
AllApart-one new xs apart = Apart-AllApart new [] xs apart (AllApart-nil xs)

pub AllApart-cons :
    (xs : List ℕ) (e : ℕ) (ys : List ℕ) → AllApart xs (e ∷ ys) → Apart e xs × AllApart xs ys
AllApart-cons [] e ys all = (tt, tt)
AllApart-cons (x ∷ xs) e ys all =
    let (one, two) = AllApart-cons xs e ys all.1 in (((λ q. all.0.0 (sym q)), one), (all.0.1, two))

pub last-Apart : (a : ℕ) (xs ys : List ℕ) → AllApart (a ∷ xs) ys → Apart (last a xs) ys
last-Apart a [] ys all = all.0
last-Apart a (x ∷ xs) ys all = last-Apart x xs ys all.1
