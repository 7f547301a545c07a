-- ===== src/Proc/Create/Fork.antt =====
-- proc/fork.c: the child that `fork` makes.
use raincloud.Prelude.{
  ℕ, ◌<◌, ◌≤◌, ◌≡◌, ◌≢◌, refl, sym, ap, ◌∙◌, none, some, List, [], ◌∷◌, ◌++◌, arith, length, get_or,
  inl, inr,
}
use raincloud.Mm.Pages.{MmPool}
use raincloud.Paging.{Machine}
use raincloud.Paging.VmMap.{VmMap}
use raincloud.Paging.VmMap.Dup.{Grants, dup_done, vm_map_dup}
use raincloud.Proc.Ids.{tid_alloc, pid_alloc, max_pid, max_tid}
use raincloud.Proc.Ids.Tables.{Allocated, pid_alloc-Allocates, tid_alloc-Allocates}
use raincloud.Proc.Queue.{queue_enqueue}
use raincloud.Proc.Sched.{Thread, Proc}
use raincloud.Proc.Sched.Exit.{store_self, store_other}
use raincloud.Proc.Create.{
  Context, World, fork_returned, extended, id_of, thread_dup, thread_attach, proc_init, fork_child,
  with_memory, after_dup, dup_current, fork, failed,
}

-- An identifier that is free is found.
taken_pid :
    (table : List ℕ) (i : ℕ)
    → max_pid ≤ length table
    → i < max_pid
    → get_or table i 1 ≡ 0
    → (k : ℕ) × ((pid_alloc table).0 ≡ some k) × Allocated max_pid 1 table k (pid_alloc table).1
taken_pid table i fits small free = elim (pid_alloc-Allocates table fits) [
  | inl got ↦ got
  | inr lost ↦ absurd (lost.1 i small free)
]

taken_tid :
    (table : List ℕ) (i : ℕ)
    → max_tid ≤ length table
    → i < max_pid
    → get_or table i 1 ≡ 0
    → (k : ℕ) × ((tid_alloc table).0 ≡ some k) × Allocated max_pid 1 table k (tid_alloc table).1
taken_tid table i fits small free = elim (tid_alloc-Allocates table fits).0 [
  | inl got ↦ got
  | inr lost ↦ absurd (lost.1 i small free)
]

-- What `fork` makes of the world: the thread at `t` of the process at `p`, whose parent is the
-- process at `parent`; `vm_map` and `memory` are the copy of its map and the memory with it.
pub record Child (t p parent tid pid : ℕ) (vm_map : VmMap) (memory : Machine MmPool) (w w' : World)
    : Type 0 where
  pub thread : w'.kernel.threads t ≡ record {
    tid = tid;
    status = (w.kernel.threads w.kernel.current_thread).status;
    proc = some p;
  }
  pub context : w'.contexts t ≡ record (w.contexts w.kernel.current_thread) { rax = pid }
  pub process : w'.kernel.procs p ≡ record (w.kernel.procs p) {
    pid = pid;
    threads = t ∷ [];
    child = [];
    parent = some parent;
    status = 0;
  }
  pub family :
      w'.kernel.procs parent
      ≡ record (w.kernel.procs parent) { child = (w.kernel.procs parent).child ++ p ∷ [] }
  pub descriptors : w'.fd_tables p ≡ w.fd_tables parent
  pub queue : w'.kernel.ready_queue ≡ queue_enqueue w.kernel.ready_queue t
  pub other_threads : (u : ℕ) → u ≢ t → w'.kernel.threads u ≡ w.kernel.threads u
  pub other_contexts : (u : ℕ) → u ≢ t → w'.contexts u ≡ w.contexts u
  pub map : w'.kernel.vm_maps p ≡ vm_map
  pub pages : w'.kernel.memory ≡ memory
  pub other_descriptors : (q : ℕ) → q ≢ p → w'.fd_tables q ≡ w.fd_tables q
  pub other_maps : (q : ℕ) → q ≢ p → w'.kernel.vm_maps q ≡ w.kernel.vm_maps q
  pub running :
      (w'.kernel.current_thread ≡ w.kernel.current_thread)
      × (w'.kernel.current_proc ≡ w.kernel.current_proc)
      × (w'.kernel.load_context ≡ w.kernel.load_context)
      × (w'.kernel.save_context ≡ w.kernel.save_context)
      × (w'.kernel.cr3 ≡ w.kernel.cr3)
  pub other_procs : (q : ℕ) → q ≢ p → q ≢ parent → w'.kernel.procs q ≡ w.kernel.procs q

fork-forked :
    (t p parent : ℕ) (grants : Grants) (w : World) {vm_map : VmMap} {memory : Machine MmPool}
    → w.kernel.current_proc ≡ some parent
    → vm_map_dup grants (w.kernel.vm_maps parent) w.kernel.memory ≡ dup_done vm_map memory
    → fork grants (some t) (some p) w
      ≡ fork_returned 0 (
          fork_child t p parent vm_map
            (with_memory memory (thread_dup t w.kernel.current_thread w)))
unfolding fork thread_dup
fork-forked t p parent grants w current copied =
    let dup = thread_dup t w.kernel.current_thread w in
    ap (λ o. dup_current grants t p o dup) current ∙ ap (after_dup t p parent dup) copied

module _ (t p parent : ℕ) (vm_map : VmMap) (memory : Machine MmPool) (w : World)
    (apart : parent ≢ p) where
  abbrev forked : World
  forked =
      fork_child t p parent vm_map (with_memory memory (thread_dup t w.kernel.current_thread w))

  module _ (tid pid : ℕ) (te : (tid_alloc w.tid_table).0 ≡ some tid)
      (pe : (pid_alloc w.pid_table).0 ≡ some pid) (small : pid < 256) where
    made : (id : ℕ) → Proc
    made id = record (w.kernel.procs p) {
      pid = id;
      threads = t ∷ [];
      child = [];
      parent = some parent;
      status = 0;
    }

    child-made : forked.kernel.procs p ≡ made pid
    unfolding thread_dup thread_attach proc_init made
    child-made =
        store_self p _ _
        ∙ ap (λ (o : Proc). record o { threads = o.threads ++ t ∷ [] })
            (store_other _ _ (λ e. apart (sym e)) ∙ store_self p _ _)
        ∙ ap (λ id. made (id_of id)) pe

    child_pid : extended (forked.kernel.procs p).pid ≡ pid
    unfolding made
    child_pid =
        let low : extended pid ≡ pid = ground arith in
        ap (λ (o : Proc). extended o.pid) child-made ∙ low

    forked-Child : Child t p parent tid pid vm_map memory w forked
    unfolding thread_dup thread_attach proc_init made
    forked-Child = record {
      thread =
          store_self t _ _
          ∙ ap (λ (o : Thread). record o { proc = some p }) (store_self t _ _)
          ∙ ap (λ id. copied (id_of id)) te;
      context =
          store_self t _ _
          ∙ ap (λ (c : Context). record c { rax = extended (forked.kernel.procs p).pid })
              (store_self t _ _)
          ∙ ap (λ r. resumed r) child_pid;
      process = child-made;
      family =
          store_other _ _ apart
          ∙ store_self parent _ _
          ∙ ap (λ (o : Proc). record o { child = o.child ++ p ∷ [] }) (store_other _ _ apart);
      descriptors = store_self p _ _;
      queue = refl;
      map = store_self p _ _;
      pages = refl;
      other_descriptors = λ q ne. store_other _ _ ne;
      other_maps = λ q ne. store_other _ _ ne;
      running = (refl, refl, refl, refl, refl);
      other_threads = λ u ne. store_other _ _ ne ∙ store_other _ _ ne;
      other_contexts = λ u ne. store_other _ _ ne ∙ store_other _ _ ne;
      other_procs = λ q np nq. store_other _ _ np ∙ store_other _ _ nq ∙ store_other _ _ np;
    }
      where
        copied : ℕ → Thread
        copied id = record (w.kernel.threads w.kernel.current_thread) { tid = id; proc = some p }

        resumed : ℕ → Context
        resumed r = record (w.contexts w.kernel.current_thread) { rax = r }

-- `fork` in a process returns 0 to its caller if `malloc` gives a thread and a process, identifiers
-- are free and `vm_map_dup` copies the map of the caller's process. The child has the lowest free identifiers, one thread, with the caller's
-- registers but its own process identifier in RAX, the caller's descriptors and the copy of the map;
-- it is the last child of the caller's process, and its thread the last in the queue. All other
-- threads, contexts, processes, descriptors and maps, what runs and where contexts are saved to and
-- loaded from are as before, and the memory is that of the copy.
pub fork-Child :
    (t p parent i j : ℕ) (grants : Grants) (w : World) {vm_map : VmMap} {memory : Machine MmPool}
    → w.kernel.current_proc ≡ some parent
    → vm_map_dup grants (w.kernel.vm_maps parent) w.kernel.memory ≡ dup_done vm_map memory
    → parent ≢ p
    → max_tid ≤ length w.tid_table
    → i < max_pid
    → get_or w.tid_table i 1 ≡ 0
    → max_pid ≤ length w.pid_table
    → j < max_pid
    → get_or w.pid_table j 1 ≡ 0
    → (tid : ℕ) × (pid : ℕ) × (w' : World) × (fork grants (some t) (some p) w ≡ fork_returned 0 w')
      × Allocated max_pid 1 w.tid_table tid w'.tid_table
      × Allocated max_pid 1 w.pid_table pid w'.pid_table
      × Child t p parent tid pid vm_map memory w w'
unfolding thread_dup thread_attach proc_init
fork-Child t p parent i j grants w {vm_map} {memory} current copied apart tf ti tz pf pi pz =
    let (tid, te, ta) = taken_tid w.tid_table i tf ti tz in
    let (pid, pe, pa) = taken_pid w.pid_table j pf pi pz in
    (
      tid,
      pid,
      forked t p parent vm_map memory w apart,
      fork-forked t p parent grants w current copied,
      ta,
      pa,
      forked-Child t p parent vm_map memory w apart tid pid te pe pa.within,
    )

-- Where `malloc` gives `fork` a thread but no process, `fork` returns -1 with the processes, the
-- queue and the table of process identifiers as before; but the lowest free thread identifier, of
-- which there was one, stays taken.
pub fork_out_of_memory :
    (t i : ℕ) (grants : Grants) (w : World)
    → max_tid ≤ length w.tid_table
    → i < max_pid
    → get_or w.tid_table i 1 ≡ 0
    → (w' : World) × (tid : ℕ) × (fork grants (some t) none w ≡ fork_returned failed w')
      × Allocated max_pid 1 w.tid_table tid w'.tid_table
      × (w'.kernel.procs ≡ w.kernel.procs)
      × (w'.kernel.ready_queue ≡ w.kernel.ready_queue)
      × (w'.pid_table ≡ w.pid_table)
unfolding fork thread_dup
fork_out_of_memory t i grants w fits small free =
    let (tid, _, ta) = taken_tid w.tid_table i fits small free in
    (thread_dup t w.kernel.current_thread w, tid, refl, ta, refl, refl, refl)
