-- ===== src/Proc/Create.antt =====
-- proc/thread.c, proc/proc.c and proc/fork.c: how threads and processes are made.
pub mod Fork
pub mod Runs
pub mod Selectors
mod Tests
use raincloud.Prelude.{
  ℕ, ◌+◌, ◌^◌, ◌-◌, Bool, true, false, Option, none, some, List, [], ◌∷◌, ◌++◌, ◌==◌, if◌then◌else◌,
  ltb, replicate,
}
use raincloud.Mm.Pages.{MmPool}
use raincloud.Paging.{Machine}
use raincloud.Paging.VmMap.{VmMap}
use raincloud.Paging.VmMap.Dup.{Grants, Dupped, dup_done, dup_halted, null_written, vm_map_dup}
use raincloud.Proc.Ids.{tid_alloc, tid_free, pid_alloc, fd_table_size}
use raincloud.Proc.Queue.{queue_enqueue}
use raincloud.Proc.Sched.{Thread, Proc, Kernel, store}

-- `context_t`.
pub record Context : Type 0 where
  pub rax : ℕ
  pub rcx : ℕ
  pub rdx : ℕ
  pub rbx : ℕ
  pub rbp : ℕ
  pub rsi : ℕ
  pub rdi : ℕ
  pub r8 : ℕ
  pub r9 : ℕ
  pub r10 : ℕ
  pub r11 : ℕ
  pub r12 : ℕ
  pub r13 : ℕ
  pub r14 : ℕ
  pub r15 : ℕ
  pub fs : ℕ
  pub gs : ℕ
  pub rip : ℕ
  pub cs : ℕ
  pub rflags : ℕ
  pub rsp : ℕ
  pub ss : ℕ

abbrev pub zero_context : Context
zero_context = record {
  rax = 0;
  rcx = 0;
  rdx = 0;
  rbx = 0;
  rbp = 0;
  rsi = 0;
  rdi = 0;
  r8 = 0;
  r9 = 0;
  r10 = 0;
  r11 = 0;
  r12 = 0;
  r13 = 0;
  r14 = 0;
  r15 = 0;
  fs = 0;
  gs = 0;
  rip = 0;
  cs = 0;
  rflags = 0;
  rsp = 0;
  ss = 0;
}

-- The kernel of the scheduler, with the rest of the objects behind the pointers: the contexts of
-- the threads, the descriptors of the processes, and the tables of identifiers.
pub record World : Type 0 where
  pub kernel : Kernel
  pub contexts : ℕ → Context
  pub fd_tables : ℕ → List ℕ
  pub pid_table : List ℕ
  pub tid_table : List ℕ

-- `id_t`: -1 is its 32-bit pattern, which is sign-extended to a register.
abbrev pub id_of : Option ℕ → ℕ
id_of none = 2 ^ 32 - 1
id_of (some i) = i

abbrev pub extended : ℕ → ℕ
extended id = if ltb id (2 ^ 31) then id else id + (2 ^ 64 - 2 ^ 32)

abbrev pub reg_flags_if_mask : ℕ
reg_flags_if_mask = 0x200

abbrev pub is_null : Option ℕ → Bool
is_null none = true
is_null (some p) = false

abbrev pub init_context : (proc : Option ℕ) (entrypoint stack_top : ℕ) → Context
init_context proc entrypoint stack_top = record zero_context {
  rip = entrypoint;
  rsp = stack_top;
  ss = if is_null proc then 0x8 else 0x20 + 0x3;
  fs = 0x8;
  gs = 0x8;
  cs = if is_null proc then 0x28 else 0x40 + 0x3;
  rflags = reg_flags_if_mask;
}

-- `list_add_before(&proc->threads, ...)` and `list_add_before(&parent->child, ...)`.
abbrev pub add_thread : (t p : ℕ) → (ℕ → Proc) → ℕ → Proc
add_thread t p procs = store p (record (procs p) { threads = (procs p).threads ++ t ∷ [] }) procs

abbrev pub add_child : (c p : ℕ) → (ℕ → Proc) → ℕ → Proc
add_child c p procs = store p (record (procs p) { child = (procs p).child ++ c ∷ [] }) procs

abbrev pub attach : (t : ℕ) → Option ℕ → (ℕ → Proc) → ℕ → Proc
attach t none procs = procs
attach t (some p) procs = add_thread t p procs

-- `thread_init` of the thread at the place `t`.
pub thread_init : (t : ℕ) (proc : Option ℕ) (entrypoint stack_top : ℕ) → World → World
thread_init t proc entrypoint stack_top w =
    let (tid, tid_table) = tid_alloc w.tid_table in
    record w {
      kernel = record w.kernel {
        threads = store t (record { tid = id_of tid; status = 0; proc = proc }) w.kernel.threads;
        procs = attach t proc w.kernel.procs;
      };
      contexts = store t (init_context proc entrypoint stack_top) w.contexts;
      tid_table = tid_table;
    }

pub thread_attach : (t p : ℕ) → World → World
thread_attach t p w = record w {
  kernel = record w.kernel {
    threads = store t (record (w.kernel.threads t) { proc = some p }) w.kernel.threads;
    procs = add_thread t p w.kernel.procs;
  };
}

pub thread_dup : (new old : ℕ) → World → World
thread_dup new old w =
    let (tid, tid_table) = tid_alloc w.tid_table in
    record w {
      kernel = record w.kernel {
        threads = store new (record (w.kernel.threads old) { tid = id_of tid }) w.kernel.threads;
      };
      contexts = store new (w.contexts old) w.contexts;
      tid_table = tid_table;
    }

-- `proc_init`, less the arguments and the environment, which it only stores. `vm_map` is what is
-- behind the pointer given.
-- `xstat` is not set; the memory of the structure holds what it held.
abbrev pub inherited : Option ℕ → (ℕ → List ℕ) → List ℕ
inherited none fd_tables = replicate fd_table_size 0
inherited (some parent) fd_tables = fd_tables parent

abbrev pub adopt : (p : ℕ) → Option ℕ → (ℕ → Proc) → ℕ → Proc
adopt p none procs = procs
adopt p (some parent) procs = add_child p parent procs

pub proc_init : (p : ℕ) (parent : Option ℕ) (vm_map : VmMap) → World → World
proc_init p parent vm_map w =
    let (pid, pid_table) = pid_alloc w.pid_table in
    let fresh = record (w.kernel.procs p) {
      pid = id_of pid;
      threads = [];
      child = [];
      parent = parent;
      status = 0;
    } in
    record w {
      kernel = record w.kernel {
        procs = adopt p parent (store p fresh w.kernel.procs);
        vm_maps = store p vm_map w.kernel.vm_maps;
      };
      fd_tables = store p (inherited parent w.fd_tables) w.fd_tables;
      pid_table = pid_table;
    }

-- How `fork` ends; it is halted with `vm_map_dup`, and it crashes where that writes through NULL or
-- the current process is NULL.
pub data Forked : Type 0 where
  fork_returned : (result : ℕ) → World → Forked
  fork_halted : Forked
  fork_crashed : Forked

-- What `fork` does once `proc_dup` has copied the map of memory.
abbrev pub fork_child : (t p parent : ℕ) → (vm_map : VmMap) → World → World
fork_child t p parent vm_map w =
    let w = thread_attach t p (proc_init p (some parent) vm_map w) in
    record w {
      kernel = record w.kernel { ready_queue = queue_enqueue w.kernel.ready_queue t };
      contexts =
          store t (record (w.contexts t) { rax = extended (w.kernel.procs p).pid }) w.contexts;
    }

-- -1 of an `int`.
abbrev pub failed : ℕ
failed = 2 ^ 32 - 1

abbrev pub with_memory : Machine MmPool → World → World
with_memory memory w = record w { kernel = record w.kernel { memory = memory } }

-- What follows on the copy of the map.
abbrev pub after_dup : (t p parent : ℕ) → World → Dupped → Forked
after_dup t p parent w (dup_done vm_map memory) =
    fork_returned 0 (fork_child t p parent vm_map (with_memory memory w))
after_dup t p parent w dup_halted = fork_halted
after_dup t p parent w null_written = fork_crashed

abbrev pub dup_current : Grants → (t p : ℕ) → (current_proc : Option ℕ) → World → Forked
dup_current grants t p none w = fork_crashed
dup_current grants t p (some parent) w =
    after_dup t p parent w (vm_map_dup grants (w.kernel.vm_maps parent) w.kernel.memory)

-- `thread` and `proc` are what `malloc` gives, and `grants` what it grants to `vm_map_dup`; the
-- other structures of `proc_dup` are granted.
pub fork : Grants → (thread proc : Option ℕ) → World → Forked
unfolding thread_dup proc_init thread_attach
fork grants none proc w = fork_returned failed w
fork grants (some t) none w = fork_returned failed (thread_dup t w.kernel.current_thread w)
fork grants (some t) (some p) w =
    let w = thread_dup t w.kernel.current_thread w in dup_current grants t p w.kernel.current_proc w
