-- ===== src/Proc/Sched/Rotate.antt =====
-- proc/sched.c: the first thread that is not stopped runs, and goes to the end of the queue.
use raincloud.Prelude.{
  ℕ, zero, suc, ◌+◌, ◌<◌, ◌^◌, ◌≡◌, ◌≢◌, refl, sym, false, Option, none, some, List, [], ◌∷◌, ◌++◌,
  arith, length, length-append, ◌==◌, ==_iff, inl, inr, Bool-cases, ap, ◌↔◌, ◌∙◌, ◌⊎◌,
}
use raincloud.Mm.Pages.{MmPool, Outcome, done, halted}
use raincloud.Paging.{Machine}
use raincloud.Paging.VmMap.{VmMap, vm_map_do_mapping}
use raincloud.Proc.Queue.{Queue, queue_dequeue}
use raincloud.Proc.Queue.Fifo.{Holds, queue_enqueue-Holds, queue_dequeue-Holds, queue_dequeue-null}
use raincloud.Proc.Sched.{
  Thread, Kernel, stopped, returned, assert_failed, found, queue_ran_empty, next_thread, switch_to,
  sched, looping, after_mapping, map_current, mapping_halted,
}

-- All the threads at these places are stopped.
abbrev pub AllStopped : (ℕ → Thread) → List ℕ → Type 0
AllStopped threads [] = Unit
AllStopped threads (t ∷ ts) = ((threads t).status ≡ stopped) × AllStopped threads ts

not_stopped : {n : ℕ} → n ≢ stopped → (n == stopped) ≡ false
not_stopped ne = ground arith

next_thread-found :
    (fuel : ℕ) (threads : ℕ → Thread) {queue : Queue ℕ} (dead : List ℕ) {t : ℕ} {rest : List ℕ}
    → Holds queue (dead ++ (t ∷ rest))
    → AllStopped threads dead
    → (threads t).status ≢ stopped
    → length dead < fuel
    → (queue' : Queue ℕ) × (next_thread fuel threads queue ≡ found t queue') × Holds queue' rest
unfolding next_thread
next_thread-found zero threads dead h all live enough = absurd (omega arith)
next_thread-found (suc fuel) threads {queue} [] {t} h all live enough =
    let d = queue_dequeue-Holds h in
    ((queue_dequeue queue).1, rw (next_thread, d.0, not_stopped live), d.1)
next_thread-found (suc fuel) threads {queue} (x ∷ dead) h all live enough =
    let d = queue_dequeue-Holds h in
    let later = next_thread-found fuel threads dead d.1 all.1 live (omega arith) in
    (later.0, rw (next_thread, d.0, all.0) later.1, later.2)

next_thread-queue_ran_empty :
    (fuel : ℕ) (threads : ℕ → Thread) {queue : Queue ℕ} (dead : List ℕ)
    → Holds queue dead
    → AllStopped threads dead
    → length dead < fuel
    → next_thread fuel threads queue ≡ queue_ran_empty
unfolding next_thread
next_thread-queue_ran_empty zero threads dead h all enough = absurd (omega arith)
next_thread-queue_ran_empty (suc fuel) threads {queue} [] h all enough =
    rw (next_thread, queue_dequeue-null h)
next_thread-queue_ran_empty (suc fuel) threads {queue} (x ∷ dead) h all enough =
    let d = queue_dequeue-Holds h in
    rw (next_thread, d.0, all.0)
      (next_thread-queue_ran_empty fuel threads dead d.1 all.1 (omega arith))

-- What is mapped for a thread: the map of its process, if it has one.
abbrev pub map_of : (ℕ → VmMap) → Option ℕ → VmMap
map_of vm_maps none = []
map_of vm_maps (some p) = vm_maps p

-- What `sched` does when it takes `t`, and `rest` is what stood behind `t`.
pub record Runs (k k' : Kernel) (t : ℕ) (rest : List ℕ) : Type 0 where
  pub thread : k'.current_thread ≡ t
  pub contexts : (k'.load_context ≡ t) × (k'.save_context ≡ t)
  pub proc : k'.current_proc ≡ (k.threads t).proc
  pub mapped :
      vm_map_do_mapping k.cr3 (map_of k.vm_maps (k.threads t).proc) k.memory ≡ done k'.memory
  pub queue : Holds k'.ready_queue (rest ++ (t ∷ []))
  pub objects :
      (k'.threads ≡ k.threads) × (k'.procs ≡ k.procs) × (k'.vm_maps ≡ k.vm_maps) × (k'.cr3 ≡ k.cr3)

-- `sched` takes `t`, and either its memory is mapped and `sched` returns, or the mapping is halted.
abbrev pub Switched : Kernel → (t : ℕ) → List ℕ → Type 0
Switched k t rest =
    ((k' : Kernel) × (sched k ≡ returned k') × Runs k k' t rest)
    ⊎ ((sched k ≡ mapping_halted)
        × (vm_map_do_mapping k.cr3 (map_of k.vm_maps (k.threads t).proc) k.memory ≡ halted))

switch_to-Runs :
    (k : Kernel) {t : ℕ} {rest : List ℕ} {queue : Queue ℕ} (m : Machine MmPool)
    → Holds queue rest
    → length rest + 1 < 2 ^ 64
    → vm_map_do_mapping k.cr3 (map_of k.vm_maps (k.threads t).proc) k.memory ≡ done m
    → Runs k (record (switch_to t queue k) { memory = m }) t rest
unfolding switch_to
switch_to-Runs k {t} m h fits mapped = record {
  thread = refl;
  contexts = (refl, refl);
  proc = refl;
  mapped = mapped;
  queue = queue_enqueue-Holds t h fits;
  objects = (refl, refl, refl, refl);
}

Outcome-cases : {A : Type 0} (r : Outcome A) → ((a : A) × (r ≡ done a)) ⊎ (r ≡ halted)
Outcome-cases (done a) = inl (a, refl)
Outcome-cases halted = inr refl

map_current-done :
    (o : Option ℕ) (k : Kernel) (m : Machine MmPool)
    → vm_map_do_mapping k.cr3 (map_of k.vm_maps o) k.memory ≡ done m
    → map_current o k ≡ returned (record k { memory = m })
unfolding vm_map_do_mapping
map_current-done none k m e = ap (after_mapping k) e
map_current-done (some p) k m e = ap (after_mapping k) e

map_current-halted :
    (o : Option ℕ) (k : Kernel)
    → vm_map_do_mapping k.cr3 (map_of k.vm_maps o) k.memory ≡ halted
    → map_current o k ≡ mapping_halted
unfolding vm_map_do_mapping
map_current-halted none k e = ap (after_mapping k) e
map_current-halted (some p) k e = ap (after_mapping k) e

finish-Switched :
    (k : Kernel) {t : ℕ} {rest : List ℕ} {queue : Queue ℕ}
    → sched k ≡ map_current (k.threads t).proc (switch_to t queue k)
    → Holds queue rest
    → length rest + 1 < 2 ^ 64
    → Switched k t rest
unfolding switch_to
finish-Switched k {t} {rest} {queue} e h fits =
    let o = (k.threads t).proc in
    elim (Outcome-cases (vm_map_do_mapping k.cr3 (map_of k.vm_maps o) k.memory)) [
      | inl (m, mapped) ↦ inl (
        record (switch_to t queue k) { memory = m },
        e ∙ map_current-done o (switch_to t queue k) m mapped,
        switch_to-Runs k m h fits mapped,
      )
      | inr stop ↦ inr (e ∙ map_current-halted o (switch_to t queue k) stop, stop)
    ]

-- Behind any number of stopped threads in the queue, `sched` takes the first that is not. If the
-- map of its process, if it has one, can be mapped, `sched` returns: the thread runs, its context
-- is the one to load and to save to, its process is the current one, whose map is mapped in memory,
-- and it goes to the end of the queue; the stopped ones are no longer in it. If the mapping is
-- halted, so is `sched`.
pub sched-Runs :
    (k : Kernel) (dead : List ℕ) {t : ℕ} {rest : List ℕ}
    → Holds k.ready_queue (dead ++ (t ∷ rest))
    → AllStopped k.threads dead
    → (k.threads t).status ≢ stopped
    → Switched k t rest
unfolding sched
sched-Runs k dead {t} {rest} h all live =
    let size = length-append dead (t ∷ rest) in
    let (queue', e, holds) =
      next_thread-found (k.ready_queue.length + 1) k.threads dead h all live
        (omega (arith, h.count, size)) in
    finish-Switched k (rw e) holds (omega (arith, h.small, size))

sched-eq-assert_failed :
    (k : Kernel) {xs : List ℕ}
    → Holds k.ready_queue xs
    → AllStopped k.threads xs
    → sched k ≡ assert_failed
unfolding sched
sched-eq-assert_failed k {xs} h all = rw (
    next_thread-queue_ran_empty (k.ready_queue.length + 1) k.threads xs h all
      (omega (arith, h.count)))

-- The first thread that can run, if any.
abbrev FirstLive : (ℕ → Thread) → List ℕ → Type 0
FirstLive threads xs =
    (dead : List ℕ) × (t : ℕ) × (rest : List ℕ) × (xs ≡ dead ++ (t ∷ rest))
    × AllStopped threads dead
    × ((threads t).status ≢ stopped)

AllStopped-cases :
    (threads : ℕ → Thread) (xs : List ℕ) → AllStopped threads xs ⊎ FirstLive threads xs
AllStopped-cases threads [] = inl tt
AllStopped-cases threads (x ∷ xs) = elim (Bool-cases ((threads x).status == stopped)) [
  | inr live ↦ inr ([], x, xs, refl, tt, λ e. ground arith)
  | inl dead ↦ elim (AllStopped-cases threads xs) [
    | inl all ↦ inl ((==_iff _ _).0 dead, all)
    | inr (ds, t, rest, e, all, live) ↦
        inr (x ∷ ds, t, rest, ap (λ ys. x ∷ ys) e, ((==_iff _ _).0 dead, all), live)
  ]
]

pub sched-cases :
    (k : Kernel) {xs : List ℕ}
    → Holds k.ready_queue xs
    → ((sched k ≡ assert_failed) × AllStopped k.threads xs)
      ⊎ ((t : ℕ) × (rest : List ℕ) × Switched k t rest × ((k.threads t).status ≢ stopped))
sched-cases k {xs} h = elim (AllStopped-cases k.threads xs) [
  | inl all ↦ inl (sched-eq-assert_failed k h all, all)
  | inr (dead, t, rest, e, all, live) ↦ inr (t, rest, sched-Runs k dead (rw e at h) all live, live)
]

returned_ne_failed : {k' : Kernel} → returned k' ≢ assert_failed
returned_ne_failed e = cc

halted_ne_failed : mapping_halted ≢ assert_failed
halted_ne_failed e = cc

-- The assertion of `sched` fails if and only if every thread in the queue is stopped, and its loop
-- always ends.
sched-halts :
    (k : Kernel) {xs : List ℕ}
    → Holds k.ready_queue xs
    → ((sched k ≡ assert_failed) ↔ AllStopped k.threads xs) × (sched k ≢ looping)
sched-halts k h = elim (sched-cases k h) [
  | inl (e, all) ↦ ((λ _. all, λ _. e), λ l. cc)
  | inr (_, _, inl (k', e, _), _) ↦ (
    (λ f. absurd (cc), λ all. absurd (returned_ne_failed (sym e ∙ sched-eq-assert_failed k h all))),
    λ l. cc,
  )
  | inr (_, _, inr (e, _), _) ↦ (
    (λ f. absurd (cc), λ all. absurd (halted_ne_failed (sym e ∙ sched-eq-assert_failed k h all))),
    λ l. cc,
  )
]
