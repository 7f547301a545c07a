-- ===== src/Proc/Tests.antt =====
-- proc/: runs on small tables and queues, and the theorems at them.
use raincloud.Prelude.{
  ℕ, ◌+◌, ◌≡◌, ◌≢◌, refl, sym, true, false, none, some, List, [], ◌∷◌, length, replicate, arith,
  if◌then◌else◌, ◌==◌, ◌||◌,
}
use raincloud.Mm.Pages.{MmPool, done, phy_map_base}
use raincloud.Paging.{Machine}
use raincloud.Paging.Shape.{Owner, IsTree}
use raincloud.Paging.Kernel.{kernel-IsPager}
use raincloud.Paging.Chain.{VmMapEntry, Every, IsMappable, Apart as MapApart}
use raincloud.Paging.VmMap.{IsLow, vm_map_do_mapping}
use raincloud.Proc.Ids.{pid_alloc, first_zero}
use raincloud.Proc.Queue.{Queue, queue_isempty, queue_enqueue, extract, queue_dequeue}
use raincloud.Proc.Queue.Fifo.{Holds}
use raincloud.Proc.Sched.{
  next_thread, switch_to, store, stop_threads, leave, Thread, Kernel, stopped, returned, sched,
  sched_times, exit,
}
use raincloud.Proc.Sched.Rotate.{Switched, sched-Runs}
use raincloud.Proc.Sched.Fair.{Affords, thread_map, sched_times-reaches}
use raincloud.Proc.Sched.Exit.{Differs, exit-never_runs}

-- The first two identifiers are taken.
abbrev pids : List ℕ
pids = 1 ∷ 1 ∷ replicate 254 0

abbrev tids : List ℕ
tids = 1 ∷ replicate 1023 0

third_free : (pid_alloc pids).0 ≡ some 2
unfolding pid_alloc first_zero
third_free = refl

abbrev fds : List ℕ
fds = 4096 ∷ replicate 255 0

-- Thread 2 is stopped; 3 and 4 belong to process 1, the current one, and 5 to none.
abbrev threads : ℕ → Thread
threads t = record {
  tid = t;
  status = if t == 2 then stopped else 1;
  proc = if t == 3 || t == 4 then some 1 else none;
}

-- A pool of sixteen pages, an empty root table at 0x1000, and an entry of two pages.
abbrev pub machine : Machine MmPool
machine = record {
  mem = λ a. 0;
  pages = record {
    mm_list = record { addr = phy_map_base + 0x100000; length = 16 } ∷ [];
    available = 16;
    total = 16;
  };
}

abbrev root : ℕ
root = phy_map_base + 0x1000

abbrev pub root_owner : Owner
root_owner x = if x == root then some (3, 0) else none

root_owner-root : (x : ℕ) (o : ℕ × ℕ) → root_owner x ≡ some o → x ≡ root
root_owner-root x o e = ground arith

true_ne_false : true ≢ false
true_ne_false e = cc

pub machine-IsTree : IsTree kernel-IsPager root root_owner machine
machine-IsTree = record {
  top = refl;
  child = λ t n q i own lt here. absurd (true_ne_false (sym here));
  aligned = λ t o own. rw (root_owner-root t o own) refl;
  used =
      λ t o own free. let at = rw (root_owner-root t o own) at free in absurd (omega (arith, at));
  valid = (omega arith, (refl, tt), λ x. ground arith);
}

abbrev entry : VmMapEntry
entry = record { virt_addr = 0x400000; phy_addr = 0x200000; page_nums = 2; flags = 0x1f }

entry-IsMappable : IsMappable entry
entry-IsMappable = record {
  word = omega arith;
  few = omega arith;
  aligned = refl;
  below = omega arith;
  plain = omega arith;
  present = refl;
}

abbrev kernel : List ℕ → Kernel
kernel ready = record {
  threads = threads;
  procs = λ p. record {
    pid = p;
    threads = 3 ∷ 4 ∷ [];
    parent = some 0;
    child = 7 ∷ [];
    status = 1;
    xstat = 0;
  };
  ready_queue = record { items = ready; length = length ready };
  current_thread = 3;
  current_proc = some 1;
  load_context = 3;
  save_context = 3;
  vm_maps = λ p. if p == 1 then entry ∷ [] else [];
  cr3 = 0x1018;
  memory = machine;
}

abbrev mixed : Kernel
mixed = kernel (2 ∷ 3 ∷ 5 ∷ [])

mixed-Holds : Holds mixed.ready_queue (2 ∷ 3 ∷ 5 ∷ [])
mixed-Holds = record { items = refl; count = refl; small = omega arith }

sched-Runs_example : Switched mixed 3 (5 ∷ [])
sched-Runs_example = sched-Runs mixed (2 ∷ []) mixed-Holds (refl, tt) (omega arith)

abbrev three_ready : Kernel
three_ready = kernel (3 ∷ 4 ∷ 5 ∷ [])

three_ready-Holds : Holds three_ready.ready_queue (3 ∷ 4 ∷ 5 ∷ [])
three_ready-Holds = record { items = refl; count = refl; small = omega arith }

-- The maps of threads 3 and 4, which are that of process 1, and none for thread 5.
three_ready-Affords : Affords three_ready (3 ∷ 4 ∷ 5 ∷ [])
three_ready-Affords = record {
  owner = root_owner;
  tree = machine-IsTree;
  enough = omega arith;
  good = (entry_good, (entry_good, ((tt, tt, tt), tt)));
}
  where
    entry_good : Every IsMappable (entry ∷ []) × Every IsLow (entry ∷ []) × MapApart (entry ∷ [])
    entry_good = ((entry-IsMappable, tt), (omega arith, tt), (λ i lt. tt, tt))

sched_times-reaches_example :
    (k' : Kernel) × (k'' : Kernel) × (sched_times 2 three_ready ≡ returned k')
    × (sched k' ≡ returned k'')
    × (k''.current_thread ≡ 5)
    × (vm_map_do_mapping k'.cr3 (thread_map k'.threads k'.vm_maps 5) k'.memory ≡ done k''.memory)
    × Holds k''.ready_queue (3 ∷ 4 ∷ 5 ∷ [])
sched_times-reaches_example =
    sched_times-reaches (3 ∷ 4 ∷ []) [] three_ready three_ready-Holds
      (omega arith, (omega arith, tt)) (omega arith) three_ready-Affords

abbrev none_ready : Queue ℕ
none_ready = record { items = []; length = 0 }

-- Threads 3 and 4 are dropped, and thread 5 runs.
abbrev once : Kernel
once = switch_to 5 none_ready (leave 1 300 three_ready)

exit_moves_on : exit 300 three_ready ≡ returned once
unfolding exit sched next_thread queue_dequeue queue_isempty extract leave stop_threads store
exit_moves_on = refl

-- It is the only one left.
stays : sched_times 1 once ≡ returned (switch_to 5 none_ready once)
unfolding sched_times sched next_thread queue_dequeue queue_isempty queue_enqueue extract switch_to
    leave stop_threads store
stays = refl

exit-never_runs_example : Differs 5 (3 ∷ 4 ∷ [])
unfolding switch_to
exit-never_runs_example =
    exit-never_runs three_ready 300 1 refl three_ready-Holds exit_moves_on stays
