-- ===== src/Proc/Create/Runs.antt =====
-- proc/fork.c and proc/sched.c: when the child of a `fork` runs.
use raincloud.Prelude.{
  ℕ, ◌+◌, ◌*◌, ◌<◌, ◌≤◌, ◌^◌, ◌≡◌, ◌≢◌, refl, sym, ap, ◌∙◌, Option, none, some, List, [], ◌∷◌, ◌++◌,
  arith, length, get_or,
}
use raincloud.Mm.Pages.{MmPool}
use raincloud.Paging.{Machine}
use raincloud.Paging.Shape.{Owner, IsTree}
use raincloud.Paging.Kernel.{kernel-IsPager, get_current_plm4e}
use raincloud.Paging.Chain.{Every, IsMappable, Apart, all_pages}
use raincloud.Paging.VmMap.{VmMap, IsLow}
use raincloud.Paging.VmMap.Dup.{Grants, dup_done, vm_map_dup}
use raincloud.Proc.Ids.{max_pid, max_tid}
use raincloud.Proc.Queue.Fifo.{Holds, queue_enqueue-Holds}
use raincloud.Proc.Sched.{Thread, Kernel, returned, stopped, sched, sched_times}
use raincloud.Proc.Sched.Rotate.{map_of}
use raincloud.Proc.Sched.Exit.{Differs}
use raincloud.Proc.Sched.Fair.{
  NoneStopped, thread_map, EachMappable, pages_to_map, Affords, sched_times-reaches,
}
use raincloud.Proc.Create.{World, fork_returned, fork}
use raincloud.Proc.Create.Fork.{Child, fork-Child}

-- None of the threads at these places is of the process at `p`.
abbrev pub NoneOf : (p : ℕ) → (ℕ → Thread) → List ℕ → Type 0
NoneOf p threads [] = Unit {0}
NoneOf p threads (t ∷ ts) = ((threads t).proc ≢ some p) × NoneOf p threads ts

-- With the memory after the copy, the maps of the threads `ts` and the copy can all be mapped.
pub record AffordsChild (w : World) (vm_map : VmMap) (memory : Machine MmPool) (ts : List ℕ)
    : Type 0 where
  pub owner : Owner
  pub tree : IsTree kernel-IsPager (get_current_plm4e w.kernel.cr3) owner memory
  pub enough :
      3 * (pages_to_map w.kernel.threads w.kernel.vm_maps ts + all_pages vm_map)
      ≤ memory.pages.available
  pub good : EachMappable w.kernel.threads w.kernel.vm_maps ts
  pub copy_good : Every IsMappable vm_map × Every IsLow vm_map × Apart vm_map

map_of-same :
    (p : ℕ) (vm_maps vm_maps' : ℕ → VmMap) (o : Option ℕ)
    → ((q : ℕ) → q ≢ p → vm_maps' q ≡ vm_maps q)
    → o ≢ some p
    → map_of vm_maps' o ≡ map_of vm_maps o
map_of-same p vm_maps vm_maps' none same ne = refl
map_of-same p vm_maps vm_maps' (some q) same ne = same q (λ e. ne (ap (λ r. some r) e))

module _ {t p parent tid pid : ℕ} {vm_map : VmMap} {memory : Machine MmPool} {w w' : World}
    (c : Child t p parent tid pid vm_map memory w w') where
  child_map : thread_map w'.kernel.threads w'.kernel.vm_maps t ≡ vm_map
  child_map = ap (λ (o : Thread). map_of w'.kernel.vm_maps o.proc) c.thread ∙ c.map

  thread_map-same :
      (u : ℕ)
      → u ≢ t
      → (w.kernel.threads u).proc ≢ some p
      → thread_map w'.kernel.threads w'.kernel.vm_maps u
        ≡ thread_map w.kernel.threads w.kernel.vm_maps u
  thread_map-same u ne apart =
      ap (λ (o : Thread). map_of w'.kernel.vm_maps o.proc) (c.other_threads u ne)
      ∙ map_of-same p w.kernel.vm_maps w'.kernel.vm_maps (w.kernel.threads u).proc c.other_maps
          apart

  child-pages :
      (ts : List ℕ)
      → Differs t ts
      → NoneOf p w.kernel.threads ts
      → pages_to_map w'.kernel.threads w'.kernel.vm_maps (ts ++ t ∷ [])
        ≡ pages_to_map w.kernel.threads w.kernel.vm_maps ts + all_pages vm_map
  child-pages [] d apart = omega (arith, ap all_pages child_map)
  child-pages (u ∷ ts) d apart = omega (
    arith,
    ap all_pages (thread_map-same u (λ e. d.0 (sym e)) apart.0),
    child-pages ts d.1 apart.1,
  )

  child-EachMappable :
      (ts : List ℕ)
      → Differs t ts
      → NoneOf p w.kernel.threads ts
      → EachMappable w.kernel.threads w.kernel.vm_maps ts
      → Every IsMappable vm_map × Every IsLow vm_map × Apart vm_map
      → EachMappable w'.kernel.threads w'.kernel.vm_maps (ts ++ t ∷ [])
  child-EachMappable [] d apart good copy = (rw child_map copy, tt)
  child-EachMappable (u ∷ ts) d apart good copy = (
    rw (thread_map-same u (λ e. d.0 (sym e)) apart.0) good.0,
    child-EachMappable ts d.1 apart.1 good.1 copy,
  )

  NoneStopped-after :
      (ts : List ℕ)
      → Differs t ts
      → NoneStopped w.kernel.threads ts
      → NoneStopped w'.kernel.threads ts
  NoneStopped-after [] d live = tt
  NoneStopped-after (u ∷ ts) d live = (
    λ stop.
        live.0 (ap (λ (o : Thread). o.status) (sym (c.other_threads u (λ e. d.0 (sym e)))) ∙ stop),
    NoneStopped-after ts d.1 live.1,
  )

  child-Affords :
      (ts : List ℕ)
      → Differs t ts
      → NoneOf p w.kernel.threads ts
      → AffordsChild w vm_map memory ts
      → Affords w'.kernel (ts ++ t ∷ [])
  child-Affords ts d apart a = record {
    owner = a.owner;
    tree = rw (c.running.4, c.pages) a.tree;
    enough = rw c.pages (omega (arith, a.enough, child-pages ts d apart));
    good = child-EachMappable ts d apart a.good a.copy_good;
  }

-- Where `malloc` gives a thread and a process, identifiers are free and `vm_map_dup` copies the map of
-- the caller's process; where no thread of the queue nor the caller is stopped, the place of the
-- new thread is none in the queue and that of the new process none that a thread in the queue
-- belongs to; and where with the memory after the copy all these threads' maps and the copy can be
-- mapped, with three free pages for each page that they have: `fork` returns 0, the calls of
-- `sched` that follow return, and the child runs at the one after as many as there are threads in
-- the queue.
pub fork-sched_times :
    (t p parent i j : ℕ) (grants : Grants) (w : World) {vm_map : VmMap} {memory : Machine MmPool}
    (ts : List ℕ)
    → w.kernel.current_proc ≡ some parent
    → vm_map_dup grants (w.kernel.vm_maps parent) w.kernel.memory ≡ dup_done vm_map memory
    → parent ≢ p
    → max_tid ≤ length w.tid_table
    → i < max_pid
    → get_or w.tid_table i 1 ≡ 0
    → max_pid ≤ length w.pid_table
    → j < max_pid
    → get_or w.pid_table j 1 ≡ 0
    → Holds w.kernel.ready_queue ts
    → length ts + 1 < 2 ^ 64
    → Differs t ts
    → NoneOf p w.kernel.threads ts
    → NoneStopped w.kernel.threads ts
    → (w.kernel.threads w.kernel.current_thread).status ≢ stopped
    → AffordsChild w vm_map memory ts
    → (w' : World) × (k' : Kernel) × (k'' : Kernel) × (fork grants (some t) (some p) w
        ≡ fork_returned 0 w')
      × (sched_times (length ts) w'.kernel ≡ returned k')
      × (sched k' ≡ returned k'')
      × (k''.current_thread ≡ t)
fork-sched_times t p parent i j grants w ts current copied apart tf ti tz pf pi pz h fits d other
      live caller a =
    let (tid, pid, w', e, _, _, c) =
      fork-Child t p parent i j grants w current copied apart tf ti tz pf pi pz in
    let queued : Holds w'.kernel.ready_queue (ts ++ t ∷ []) =
      rw c.queue (queue_enqueue-Holds t h fits) in
    let (k', k'', ran, ran', runs, _, _) =
      sched_times-reaches ts [] w'.kernel queued (NoneStopped-after c ts d live)
        (λ stop. caller (ap (λ (o : Thread). o.status) (sym c.thread) ∙ stop))
        (child-Affords c ts d other a) in
    (w', k', k'', e, ran, ran', runs)
