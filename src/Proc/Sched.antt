-- ===== src/Proc/Sched.antt =====
-- proc/sched.c and proc/exit.c: which thread runs next.
pub mod Rotate
pub mod Exit
pub mod Fair
use raincloud.Prelude.{
  ℕ, zero, suc, ◌+◌, ◌-◌, ◌^◌, ◌%◌, Bool, Option, none, some, List, [], ◌∷◌, ◌==◌, if◌then◌else◌,
}
use raincloud.Mm.Pages.{MmPool, Outcome as MapOutcome, done, halted}
use raincloud.Paging.{Machine}
use raincloud.Paging.VmMap.{VmMap, vm_map_do_mapping}
use raincloud.Proc.Queue.{Queue, queue_enqueue, queue_dequeue}

-- `thread_t`, by the place of its process in `Kernel.procs`; the context is in `Kernel`.
pub record Thread : Type 0 where
  pub tid : ℕ
  pub status : ℕ
  pub proc : Option ℕ

-- `proc_t`: the lists hold the places of threads and of processes.
pub record Proc : Type 0 where
  pub pid : ℕ
  pub threads : List ℕ
  pub parent : Option ℕ
  pub child : List ℕ
  pub status : ℕ
  pub xstat : ℕ

-- The objects behind the pointers, and the scheduler's variables. The two context pointers hold the
-- place of the thread whose context they point to. `vm_maps` has the map behind the `vm_map` of the
-- process at each place; `cr3` and `memory` are the register and the memory of the page tables with
-- the free pages.
pub record Kernel : Type 0 where
  pub threads : ℕ → Thread
  pub procs : ℕ → Proc
  pub ready_queue : Queue ℕ
  pub current_thread : ℕ
  pub current_proc : Option ℕ
  pub load_context : ℕ
  pub save_context : ℕ
  pub vm_maps : ℕ → VmMap
  pub cr3 : ℕ
  pub memory : Machine MmPool

-- -1 in a `long`.
abbrev pub stopped : ℕ
stopped = 2 ^ 64 - 1

-- How a call ends: it returns, the `assert` of `sched` fails, `vm_map_do_mapping` is halted, NULL is
-- dereferenced, or the fuel does not suffice for the loop.
pub data Outcome : Type 0 where
  returned : Kernel → Outcome
  assert_failed : Outcome
  mapping_halted : Outcome
  null_dereferenced : Outcome
  looping : Outcome

-- The end of the loop that looks for a thread.
pub data Search : Type 0 where
  found : ℕ → Queue ℕ → Search
  queue_ran_empty : Search
  out_of_fuel : Search

-- The `do` loop; each round takes one thread from the queue.
unfoldable pub next_thread : ℕ → (ℕ → Thread) → Queue ℕ → Search
next_thread zero threads queue = out_of_fuel
next_thread (suc fuel) threads queue =
    let (head, queue') = queue_dequeue queue in
    let again = next_thread fuel threads queue' in
    elim head [
      | none ↦ queue_ran_empty
      | some t ↦ if (threads t).status == stopped then again else found t queue'
    ]

abbrev pub after_mapping : Kernel → MapOutcome (Machine MmPool) → Outcome
after_mapping k (done m) = returned (record k { memory = m })
after_mapping k halted = mapping_halted

-- `vm_map_do_mapping` is called for a thread of a process only.
abbrev pub map_current : Option ℕ → Kernel → Outcome
map_current none k = returned k
map_current (some p) k = after_mapping k (vm_map_do_mapping k.cr3 (k.vm_maps p) k.memory)

-- What `sched` does with the thread found before it maps the memory.
unfoldable pub switch_to : ℕ → Queue ℕ → Kernel → Kernel
switch_to t queue k = record k {
  load_context = t;
  save_context = t;
  ready_queue = queue_enqueue queue t;
  current_thread = t;
  current_proc = (k.threads t).proc;
}

abbrev pub finish : Search → Kernel → Outcome
finish (found t queue) k = map_current (k.threads t).proc (switch_to t queue k)
finish queue_ran_empty k = assert_failed
finish out_of_fuel k = looping

-- One round more than there are threads in the queue is enough.
unfoldable pub sched : Kernel → Outcome
sched k = finish (next_thread (k.ready_queue.length + 1) k.threads k.ready_queue) k

-- The object at one place changes.
unfoldable pub store {ℓ} : {A : Type ℓ} → ℕ → A → (ℕ → A) → ℕ → A
store p v objects q = if q == p then v else objects q

unfoldable pub stop_threads : List ℕ → (ℕ → Thread) → ℕ → Thread
stop_threads [] threads = threads
stop_threads (t ∷ ts) threads =
    stop_threads ts (store t (record (threads t) { status = stopped }) threads)

-- `parent` of the process at `p` is read again for each child.
pub give_children : ℕ → List ℕ → (ℕ → Proc) → ℕ → Proc
give_children p [] procs = procs
give_children p (c ∷ cs) procs =
    give_children p cs (store c (record (procs c) { parent = (procs p).parent }) procs)

-- `exit` up to the call of `sched`, in the process at `p`.
unfoldable pub leave : ℕ → ℕ → Kernel → Kernel
leave p status k =
    let marked =
      store p (record (k.procs p) { status = stopped; xstat = status % 2 ^ 8 }) k.procs in
    record k {
      threads = stop_threads (marked p).threads k.threads;
      procs = give_children p (marked p).child marked;
    }

unfoldable pub exit : ℕ → Kernel → Outcome
exit status k = elim k.current_proc [ none ↦ null_dereferenced | some p ↦ sched (leave p status k) ]

-- `sched` again and again, as the timer calls it.
unfoldable pub sched_times : ℕ → Kernel → Outcome
sched_times zero k = returned k
sched_times (suc n) k = elim (sched k) [
  | returned k' ↦ sched_times n k'
  | assert_failed ↦ assert_failed
  | mapping_halted ↦ mapping_halted
  | null_dereferenced ↦ null_dereferenced
  | looping ↦ looping
]
