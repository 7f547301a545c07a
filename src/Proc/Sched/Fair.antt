-- ===== src/Proc/Sched/Fair.antt =====
-- proc/sched.c: threads that stay runnable take turns, with their memory mapped each time.
use raincloud.Prelude.{
  ℕ, ◌+◌, ◌*◌, ◌≤◌, ◌≡◌, ◌≢◌, refl, sym, ◌∙◌, List, [], ◌∷◌, ◌++◌, length, inl, inr, arith,
}
use mathlib.Core.List.{append_assoc, append-nil}
use raincloud.Mm.Pages.{done, halted}
use raincloud.Paging.Shape.{Owner, IsTree}
use raincloud.Paging.Kernel.{kernel-IsPager, get_current_plm4e}
use raincloud.Paging.Chain.{Every, IsMappable, Apart, all_pages}
use raincloud.Paging.VmMap.{VmMap, IsLow, vm_map_do_mapping, vm_map_do_mapping-cost}
use raincloud.Proc.Queue.Fifo.{Holds}
use raincloud.Proc.Sched.{Thread, Kernel, stopped, returned, sched, sched_times}
use raincloud.Proc.Sched.Rotate.{Runs, map_of, sched-Runs}

-- None of the threads at these places is stopped.
abbrev pub NoneStopped : (ℕ → Thread) → List ℕ → Type 0
NoneStopped threads [] = Unit
NoneStopped threads (t ∷ ts) = ((threads t).status ≢ stopped) × NoneStopped threads ts

abbrev pub thread_map : (ℕ → Thread) → (ℕ → VmMap) → ℕ → VmMap
thread_map threads vm_maps t = map_of vm_maps (threads t).proc

-- The entries of each thread's map can be mapped in the lower half and do not meet.
abbrev pub EachMappable : (ℕ → Thread) → (ℕ → VmMap) → List ℕ → Type 0
EachMappable threads vm_maps [] = Unit {0}
EachMappable threads vm_maps (t ∷ ts) =
    (Every IsMappable (thread_map threads vm_maps t)
      × Every IsLow (thread_map threads vm_maps t)
      × Apart (thread_map threads vm_maps t))
    × EachMappable threads vm_maps ts

-- The pages of the threads' maps, counted once for each thread.
abbrev pub pages_to_map : (ℕ → Thread) → (ℕ → VmMap) → List ℕ → ℕ
pages_to_map threads vm_maps [] = 0
pages_to_map threads vm_maps (t ∷ ts) =
    all_pages (thread_map threads vm_maps t) + pages_to_map threads vm_maps ts

-- The page tables make a tree, and there are three free pages for each page that the maps of the
-- threads `ts` have.
pub record Affords (k : Kernel) (ts : List ℕ) : Type 0 where
  pub owner : Owner
  pub tree : IsTree kernel-IsPager (get_current_plm4e k.cr3) owner k.memory
  pub enough : 3 * pages_to_map k.threads k.vm_maps ts ≤ k.memory.pages.available
  pub good : EachMappable k.threads k.vm_maps ts

done_eq : {A : Type 0} {a b : A} → done a ≡ done b → a ≡ b
done_eq e = cc

done_ne_halted : {A : Type 0} {a : A} → done a ≢ halted
done_ne_halted e = cc

-- One `sched` of a queue whose first thread can run and be mapped.
sched-first :
    (k : Kernel) {t : ℕ} {rest : List ℕ} (ts : List ℕ)
    → Holds k.ready_queue (t ∷ rest)
    → (k.threads t).status ≢ stopped
    → Affords k (t ∷ ts)
    → (k' : Kernel) × (sched k ≡ returned k') × Runs k k' t rest × Affords k' ts
sched-first k {t} {rest} ts h live a =
    let (after, owner', ran, tree, cost) =
      vm_map_do_mapping-cost k.cr3 (thread_map k.threads k.vm_maps t) a.owner k.memory a.tree
        (omega (arith, a.enough)) a.good.0.0 a.good.0.1 a.good.0.2 in
    elim (sched-Runs k [] h tt live) [
      | inr (_, stop) ↦ absurd (done_ne_halted (sym ran ∙ stop))
      | inl (k', e, r) ↦
          let same : after ≡ k'.memory = done_eq (sym ran ∙ r.mapped) in
          (
            k',
            e,
            r,
            record {
              owner = owner';
              tree = rw (r.objects.3, sym same) tree;
              enough = rw (r.objects.0, r.objects.2, sym same) (omega (arith, a.enough, cost));
              good = rw (r.objects.0, r.objects.2) a.good.1;
            },
          )
    ]

-- If the first threads `ts` of the queue can run and be mapped, then as many calls of `sched` as
-- there are of them all return, and bring them behind the others in the same order.
sched_times-rotates :
    (ts us vs : List ℕ) (k : Kernel)
    → Holds k.ready_queue (ts ++ us)
    → NoneStopped k.threads ts
    → Affords k (ts ++ vs)
    → (k' : Kernel) × (sched_times (length ts) k ≡ returned k')
      × Holds k'.ready_queue (us ++ ts)
      × (k'.threads ≡ k.threads)
      × Affords k' vs
unfolding sched_times
sched_times-rotates [] us vs k h live a = (k, refl, rw (append-nil us) h, refl, a)
sched_times-rotates (t ∷ ts) us vs k h live a =
    let (k1, e, r, a1) = sched-first k (ts ++ vs) h live.0 a in
    let (k2, e', h', same, a2) =
      sched_times-rotates ts (us ++ (t ∷ [])) vs k1 (rw (append_assoc ts us (t ∷ [])) at r.queue)
        (rw r.objects.0 live.1) a1 in
    (k2, rw (sched_times, e) e', rw (append_assoc us (t ∷ []) ts) at h', same ∙ r.objects.0, a2)

-- A runnable thread behind the runnable threads `ts` runs at the call of `sched` after as many as
-- there are of these, where the maps of their processes can be mapped, with three free pages for
-- each page that they have: all these calls return, the memory of the thread's process is mapped
-- by the last, and no thread that can run waits forever.
pub sched_times-reaches :
    (ts us : List ℕ) {t : ℕ} (k : Kernel)
    → Holds k.ready_queue (ts ++ (t ∷ us))
    → NoneStopped k.threads ts
    → (k.threads t).status ≢ stopped
    → Affords k (ts ++ (t ∷ []))
    → (k' : Kernel) × (k'' : Kernel) × (sched_times (length ts) k ≡ returned k')
      × (sched k' ≡ returned k'')
      × (k''.current_thread ≡ t)
      × (vm_map_do_mapping k'.cr3 (thread_map k'.threads k'.vm_maps t) k'.memory ≡ done k''.memory)
      × Holds k''.ready_queue (us ++ ts ++ (t ∷ []))
sched_times-reaches ts us {t} k h lives live a =
    let (k', e, h', same, a') = sched_times-rotates ts (t ∷ us) (t ∷ []) k h lives a in
    let (k'', e', r, _) = sched-first k' [] h' (rw same live) a' in
    (k', k'', e, e', r.thread, r.mapped, r.queue)
