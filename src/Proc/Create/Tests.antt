-- ===== src/Proc/Create/Tests.antt =====
-- Making threads and processes: the theorems at concrete inputs.
use raincloud.Prelude.{
  ℕ, ◌≤◌, ◌≡◌, refl, true, none, some, [], ◌∷◌, arith, length, replicate, length-replicate,
}
use raincloud.Paging.VmMap.Dup.{Grants, dup_done, dup_entries-nil, vm_map_dup}
use raincloud.Proc.Tests.{machine, root_owner, machine-IsTree}
use raincloud.Proc.Create.Runs.{AffordsChild, fork-sched_times}
use raincloud.Proc.Sched.{returned, sched, sched_times}
use raincloud.Proc.Ids.{max_pid, max_tid}
use raincloud.Proc.Ids.Tables.{Allocated}
use raincloud.Proc.Sched.{Kernel}
use raincloud.Proc.Create.{World, zero_context, fork_returned, fork, failed}
use raincloud.Proc.Create.Fork.{Child, fork-Child, fork_out_of_memory}

-- Thread 1 of process 1 runs, and is the only one in the queue.
abbrev kernel : Kernel
kernel = record {
  threads = λ t. record { tid = t; status = 1; proc = some 1 };
  procs =
      λ p. record { pid = p; threads = 1 ∷ []; parent = none; child = []; status = 1; xstat = 0 };
  ready_queue = record { items = 1 ∷ []; length = 1 };
  current_thread = 1;
  current_proc = some 1;
  load_context = 1;
  save_context = 1;
  vm_maps = λ p. [];
  cr3 = 0x1018;
  memory = machine;
}

abbrev world : World
world = record {
  kernel = kernel;
  contexts = λ t. zero_context;
  fd_tables = λ p. [];
  pid_table = replicate 256 0;
  tid_table = replicate 1024 0;
}

tids-fit : max_tid ≤ length world.tid_table
tids-fit = omega (arith, length-replicate {A = ℕ} 1024 0)

pids-fit : max_pid ≤ length world.pid_table
pids-fit = omega (arith, length-replicate {A = ℕ} 256 0)

-- All is granted.
abbrev granted : Grants
granted i = (true, true)

map_copied : vm_map_dup granted [] kernel.memory ≡ dup_done [] kernel.memory
unfolding vm_map_dup
map_copied = dup_entries-nil granted [] kernel.memory

fork-Child_example :
    (tid : ℕ) × (pid : ℕ) × (w' : World) × (fork granted (some 5) (some 6) world
      ≡ fork_returned 0 w')
    × Allocated max_pid 1 world.tid_table tid w'.tid_table
    × Allocated max_pid 1 world.pid_table pid w'.pid_table
    × Child 5 6 1 tid pid [] kernel.memory world w'
fork-Child_example =
    fork-Child 5 6 1 0 0 granted world refl map_copied (λ e. absurd (omega (arith, e))) tids-fit
      (omega arith) refl pids-fit (omega arith) refl

-- Process 1 has an empty map, and so has its child.
child_afforded : AffordsChild world [] machine (1 ∷ [])
child_afforded = record {
  owner = root_owner;
  tree = machine-IsTree;
  enough = omega arith;
  good = ((tt, tt, tt), tt);
  copy_good = (tt, tt, tt);
}

fork-sched_times_example :
    (w' : World) × (k' : Kernel) × (k'' : Kernel) × (fork granted (some 5) (some 6) world
      ≡ fork_returned 0 w')
    × (sched_times (length {A = ℕ} (1 ∷ [])) w'.kernel ≡ returned k')
    × (sched k' ≡ returned k'')
    × (k''.current_thread ≡ 5)
fork-sched_times_example =
    fork-sched_times 5 6 1 0 0 granted world (1 ∷ []) refl map_copied
      (λ e. absurd (omega (arith, e))) tids-fit (omega arith) refl pids-fit (omega arith) refl
      (record { items = refl; count = refl; small = omega arith }) (omega arith)
      (λ e. absurd (omega (arith, e)), tt) (λ e. absurd (cc), tt)
      (λ e. absurd (omega (arith, e)), tt) (λ e. absurd (omega (arith, e))) child_afforded

fork_out_of_memory_example :
    (w' : World) × (tid : ℕ) × (fork granted (some 5) none world ≡ fork_returned failed w')
    × Allocated max_pid 1 world.tid_table tid w'.tid_table
    × (w'.kernel.procs ≡ world.kernel.procs)
    × (w'.kernel.ready_queue ≡ world.kernel.ready_queue)
    × (w'.pid_table ≡ world.pid_table)
fork_out_of_memory_example = fork_out_of_memory 5 0 granted world tids-fit (omega arith) refl
