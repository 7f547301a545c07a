-- ===== src/Proc/Ids/Tables.antt =====
-- proc/id.c and the descriptors of proc/proc.c: which place is taken, and what stays.
use raincloud.Prelude.{
  true, lt→ltb, sym, ◌⊎◌, false, ℕ, zero, suc, ◌+◌, ◌≤◌, ◌<◌, ◌≡◌, ◌≢◌, refl, ap, Option,
  Option-cases, none, some, List, [], ◌∷◌, arith, ltb, ◌==◌, length, get_or, set, get_or-set_self,
  get_or-set_ne, length-set, eq_of_some, Bool-cases, inl, inr,
}
use raincloud.Proc.Ids.{
  first_zero, take_place, max_pid, max_tid, pid_alloc, pid_free, tid_alloc, passed, fd_alloc,
  fd_free, get_fd_ptr, fd_table_size,
}

-- The first free place of the `n` from `i` on.
record IsFirst (n i : ℕ) (table : List ℕ) (k : ℕ) : Type 0 where
  low : i ≤ k
  high : k < i + n
  free : get_or table k 1 ≡ 0
  before : (j : ℕ) → i ≤ j → j < k → get_or table j 1 ≢ 0

first_zero-IsFirst :
    (n i : ℕ) (table : List ℕ) {k : ℕ} → first_zero n i table ≡ some k → IsFirst n i table k
unfolding first_zero
first_zero-IsFirst zero i table e = absurd (cc)
first_zero-IsFirst (suc n) i table {k} e = elim (Bool-cases (get_or table i 1 == 0)) [
  | inl here ↦
      let same : i ≡ k = eq_of_some (rw here at e) in
      record {
        low = omega arith;
        high = omega arith;
        free = ground arith;
        before = λ j a b. absurd (omega arith);
      }
  | inr other ↦
      let later = first_zero-IsFirst n (i + 1) table (rw other at e) in
      record {
        low = omega (arith, later.low);
        high = omega (arith, later.high);
        free = later.free;
        before = λ j a b. ground (arith, later.before j);
      }
]

first_zero-none :
    (n i : ℕ) (table : List ℕ)
    → first_zero n i table ≡ none
    → (j : ℕ) → i ≤ j
    → j < i + n
    → get_or table j 1 ≢ 0
unfolding first_zero
first_zero-none zero i table e j a b = absurd (omega arith)
first_zero-none (suc n) i table e j a b =
    ground (arith, first_zero-none n (i + 1) table (ground arith) j)

-- The outcome of an allocation that found place `k`.
pub record Allocated (limit mark : ℕ) (table : List ℕ) (k : ℕ) (table' : List ℕ) : Type 0 where
  pub within : k < limit
  pub free : get_or table k 1 ≡ 0
  pub first : (j : ℕ) → j < k → get_or table j 1 ≢ 0
  pub marked : get_or table' k 0 ≡ mark
  pub others : (j : ℕ) → j ≢ k → get_or table' j 0 ≡ get_or table j 0
  pub size : length table' ≡ length table

-- Every place below the limit is taken.
abbrev pub Full : ℕ → List ℕ → Type 0
Full limit table = (j : ℕ) → j < limit → get_or table j 1 ≢ 0

-- Either the first free place is marked, or there is none and nothing changes.
abbrev pub Allocates : ℕ → ℕ → List ℕ → Option ℕ × List ℕ → Type 0
Allocates limit mark table r =
    ((k : ℕ) × (r.0 ≡ some k) × Allocated limit mark table k r.1)
    ⊎ ((r ≡ (none, table)) × Full limit table)

take_place-Allocates :
    (limit mark : ℕ) (table : List ℕ)
    → limit ≤ length table
    → Allocates limit mark table (take_place mark table (first_zero limit 0 table))
take_place-Allocates limit mark table fits = elim (Option-cases (first_zero limit 0 table)) [
  | inl full ↦
      rw full (inr (refl, λ j h. first_zero-none limit 0 table full j (omega arith) (omega arith)))
  | inr (k, e) ↦
      let f = first_zero-IsFirst limit 0 table e in
      rw e (
        inl (
          k,
          refl,
          record {
            within = omega (arith, f.high);
            free = f.free;
            first = λ j h. f.before j (omega arith) h;
            marked = get_or-set_self table k mark 0 (omega (arith, f.high));
            others = λ j ne. get_or-set_ne table mark 0 (λ same. ne (sym same));
            size = length-set table k mark;
          },
        ))
]

-- `pid_alloc` marks and returns the first identifier below 256 that is free, and changes no other;
-- if none is free it fails and changes nothing.
pub pid_alloc-Allocates :
    (pid_table : List ℕ)
    → max_pid ≤ length pid_table
    → Allocates max_pid 1 pid_table (pid_alloc pid_table)
unfolding pid_alloc
pid_alloc-Allocates pid_table fits = take_place-Allocates max_pid 1 pid_table fits

-- `tid_alloc` does the same for the first 256 places of the table of 1024: a free place behind
-- these is never found.
pub tid_alloc-Allocates :
    (tid_table : List ℕ)
    → max_tid ≤ length tid_table
    → Allocates max_pid 1 tid_table (tid_alloc tid_table)
      × (Full max_pid tid_table → tid_alloc tid_table ≡ (none, tid_table))
unfolding tid_alloc
tid_alloc-Allocates tid_table fits =
    let a = take_place-Allocates max_pid 1 tid_table (omega arith) in
    (a, λ full. elim a [ inl (k, e, got) ↦ absurd (full k got.within got.free) | inr (e, _) ↦ e ])

set-set_back :
    (table : List ℕ) (k mark : ℕ) → get_or table k 1 ≡ 0 → set (set table k mark) k 0 ≡ table
set-set_back [] k mark free = refl
set-set_back (x ∷ xs) zero mark free = ap (λ y. y ∷ xs) (sym free)
set-set_back (x ∷ xs) (suc k) mark free = ap (λ ys. x ∷ ys) (set-set_back xs k mark free)

-- Freeing the identifier that an allocation returned restores the table.
pub pid_free-pid_alloc :
    (pid_table : List ℕ) {k : ℕ}
    → (pid_alloc pid_table).0 ≡ some k
    → pid_free k (pid_alloc pid_table).1 ≡ pid_table
unfolding pid_alloc pid_free
pid_free-pid_alloc pid_table {k} e = elim (Option-cases (first_zero max_pid 0 pid_table)) [
  | inl full ↦ absurd (ground arith)
  | inr (i, found) ↦
      let same : i ≡ k = eq_of_some (rw found at e) in
      rw found (
        rw same (
          set-set_back pid_table k 1
            (rw (← same) (first_zero-IsFirst max_pid 0 pid_table found).free)))
]

-- A descriptor of a table of 256 places: `fd_alloc` of a pointer that is not NULL passes its
-- assertion, and what it returns leads `get_fd_ptr` to that pointer, until `fd_free` takes it away.
pub get_fd_ptr-fd_alloc :
    (ptr : ℕ) (fd_table : List ℕ)
    → ptr ≢ 0
    → length fd_table ≡ fd_table_size
    → (r : Option ℕ × List ℕ) × (fd_alloc ptr fd_table ≡ passed r)
      × Allocates fd_table_size ptr fd_table r
      × ((fd : ℕ)
          → r.0 ≡ some fd
          → (get_fd_ptr fd r.1 ≡ passed ptr) × (fd_free fd r.1 ≡ passed fd_table))
unfolding fd_alloc get_fd_ptr fd_free
get_fd_ptr-fd_alloc ptr fd_table ne size =
    let some_ptr : (ptr == 0) ≡ false = ground arith in
    let r = take_place ptr fd_table (first_zero fd_table_size 0 fd_table) in
    (
      r,
      rw some_ptr,
      take_place-Allocates fd_table_size ptr fd_table (omega arith),
      λ fd e. back fd e,
    )
  where
    back :
        (fd : ℕ)
        → (take_place ptr fd_table (first_zero fd_table_size 0 fd_table)).0 ≡ some fd
        → let t = (take_place ptr fd_table (first_zero fd_table_size 0 fd_table)).1 in
          (get_fd_ptr fd t ≡ passed ptr) × (fd_free fd t ≡ passed fd_table)
    back fd e = elim (Option-cases (first_zero fd_table_size 0 fd_table)) [
      | inl full ↦ absurd (ground arith)
      | inr (i, found) ↦
          let same : i ≡ fd = eq_of_some (rw found at e) in
          let f = first_zero-IsFirst fd_table_size 0 fd_table found in
          let low : ltb i fd_table_size ≡ true = lt→ltb i fd_table_size (omega (arith, f.high)) in
          rw found (
            rw (← same) (
              rw (low, get_or-set_self fd_table i ptr 0 (omega (arith, f.high))),
              rw (low, set-set_back fd_table i ptr f.free),
            ))
    ]
