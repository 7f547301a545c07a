-- ===== src/Proc/Sched/Exit.antt =====
-- proc/exit.c: a process that exits never runs again.
use raincloud.Prelude.{
  ℕ, zero, suc, ◌^◌, ◌%◌, ◌≡◌, ◌≢◌, refl, sym, ◌∙◌, ap, some, List, [], ◌∷◌, ◌++◌, arith,
  Bool-cases, inl, inr, ◌⊎◌, ◌==◌, ==_iff,
}
use raincloud.Proc.Queue.Fifo.{Holds}
use raincloud.Proc.Sched.{
  Thread, Proc, Kernel, stopped, returned, assert_failed, mapping_halted, sched, sched_times, exit,
  leave, store, stop_threads, give_children,
}
use raincloud.Proc.Sched.Rotate.{AllStopped, Runs, sched-cases}

-- `t` is none of `ts`.
abbrev pub Differs : ℕ → List ℕ → Type 0
Differs t [] = Unit
Differs t (x ∷ xs) = (t ≢ x) × Differs t xs

pub store_self : {A : Type 0} (p : ℕ) (v : A) (objects : ℕ → A) → store p v objects p ≡ v
unfolding store
store_self p v objects = rw ((==_iff p p).1 refl)

pub store_other :
    {A : Type 0} {p q : ℕ} (v : A) (objects : ℕ → A) → q ≢ p → store p v objects q ≡ objects q
unfolding store
store_other {A} {p} {q} v objects ne = elim (Bool-cases (q == p)) [
  | inl same ↦ absurd (ne ((==_iff q p).0 same))
  | inr e ↦ rw e
]

-- A stopped thread stays stopped.
stop_threads-keeps :
    (ts : List ℕ) (threads : ℕ → Thread) (t : ℕ)
    → (threads t).status ≡ stopped
    → (stop_threads ts threads t).status ≡ stopped
unfolding stop_threads store
stop_threads-keeps [] threads t e = e
stop_threads-keeps (x ∷ ts) threads t e = stop_threads-keeps ts _ t (ground arith)

AllStopped-stop_threads :
    (ts us : List ℕ) (threads : ℕ → Thread)
    → AllStopped threads us
    → AllStopped (stop_threads ts threads) us
AllStopped-stop_threads ts [] threads all = tt
AllStopped-stop_threads ts (u ∷ us) threads all =
    (stop_threads-keeps ts threads u all.0, AllStopped-stop_threads ts us threads all.1)

stop_threads-AllStopped :
    (ts : List ℕ) (threads : ℕ → Thread) → AllStopped (stop_threads ts threads) ts
unfolding stop_threads
stop_threads-AllStopped [] threads = tt
stop_threads-AllStopped (t ∷ ts) threads = (
  stop_threads-keeps ts _ t (ap (λ o. o.status) (store_self t _ threads)),
  stop_threads-AllStopped ts _,
)

stop_threads-others :
    (ts : List ℕ) (threads : ℕ → Thread) {t : ℕ}
    → Differs t ts
    → stop_threads ts threads t ≡ threads t
unfolding stop_threads
stop_threads-others [] threads d = refl
stop_threads-others (x ∷ ts) threads d = stop_threads-others ts _ d.1 ∙ store_other _ threads d.0

live-Differs :
    (threads : ℕ → Thread) (ts : List ℕ) {t : ℕ}
    → AllStopped threads ts
    → (threads t).status ≢ stopped
    → Differs t ts
live-Differs threads [] all live = tt
live-Differs threads (x ∷ xs) {t} all live =
    (λ same. live (rw same all.0), live-Differs threads xs all.1 live)

eq_of_returned : {k k' : Kernel} → returned k ≡ returned k' → k ≡ k'
eq_of_returned e = cc

halted_ne_returned : {k : Kernel} → mapping_halted ≢ returned k
halted_ne_returned e = cc

returned_ne_halted : {k : Kernel} → returned k ≢ mapping_halted
returned_ne_halted e = cc

failed_ne_returned : {k : Kernel} → assert_failed ≢ returned k
failed_ne_returned e = cc

returned_ne_failed : {k : Kernel} → returned k ≢ assert_failed
returned_ne_failed e = cc

-- The queue is well formed, and the current thread can run.
record Running (k : Kernel) : Type 0 where
  ready : List ℕ
  holds : Holds k.ready_queue ready
  live : (k.threads k.current_thread).status ≢ stopped

sched-Running :
    (k : Kernel) {k' : Kernel} {xs : List ℕ}
    → Holds k.ready_queue xs
    → sched k ≡ returned k'
    → Running k' × (k'.threads ≡ k.threads)
sched-Running k {k'} h e = elim (sched-cases k h) [
  | inl (halted, _) ↦ absurd (returned_ne_failed (sym e ∙ halted))
  | inr (t, rest, inr (stop, _), live) ↦ absurd (returned_ne_halted (sym e ∙ stop))
  | inr (t, rest, inl (k1, ran, runs), live) ↦
      let same : k1 ≡ k' = eq_of_returned (sym ran ∙ e) in
      let r : Runs k k' t rest = rw same at runs in
      (
        record {
          ready = rest ++ (t ∷ []);
          holds = r.queue;
          live = λ dead. live (rw (r.thread, r.objects.0) at dead);
        },
        r.objects.0,
      )
]

sched_times-Running :
    (n : ℕ) (k : Kernel) {k' : Kernel}
    → Running k
    → sched_times n k ≡ returned k'
    → Running k' × (k'.threads ≡ k.threads)
unfolding sched_times
sched_times-Running zero k r e =
    let same = eq_of_returned e in (rw same at r, ap (λ o. o.threads) (sym same))
sched_times-Running (suc n) k r e = elim (sched-cases k r.holds) [
  | inl (halted, _) ↦ absurd (failed_ne_returned (rw (sched_times, halted) at e))
  | inr (_, _, inr (stop, _), _) ↦ absurd (halted_ne_returned (rw (sched_times, stop) at e))
  | inr (_, _, inl (k1, ran, _), _) ↦
      let (r1, same) = sched-Running k r.holds ran in
      let (r2, same') = sched_times-Running n k1 r1 (rw (sched_times, ran) at e) in
      (r2, same' ∙ same)
]

give_children-status :
    (p : ℕ) (cs : List ℕ) (procs : ℕ → Proc) (q : ℕ)
    → let o = give_children p cs procs q in
      (o.status ≡ (procs q).status) × (o.xstat ≡ (procs q).xstat)
unfolding give_children store
give_children-status p [] procs q = (refl, refl)
give_children-status p (c ∷ cs) procs q =
    let later = give_children-status p cs _ q in (later.0 ∙ ground arith, later.1 ∙ ground arith)

AllStopped-middle :
    (threads : ℕ → Thread) (ahead : List ℕ) {t : ℕ} (bs : List ℕ)
    → AllStopped threads (ahead ++ (t ∷ bs))
    → (threads t).status ≡ stopped
AllStopped-middle threads [] bs all = all.0
AllStopped-middle threads (a ∷ ahead) bs all = AllStopped-middle threads ahead bs all.1

exit-sched :
    (k : Kernel) (status : ℕ) {p : ℕ}
    → k.current_proc ≡ some p
    → exit status k ≡ sched (leave p status k)
unfolding exit
exit-sched k status e = rw e

leave-AllStopped :
    (k : Kernel) (status p : ℕ) → AllStopped (leave p status k).threads (k.procs p).threads
unfolding leave
leave-AllStopped k status p =
    rw (store_self p _ k.procs) (stop_threads-AllStopped (k.procs p).threads k.threads)

-- After `exit` in a process, none of its threads is the current one, and none becomes it in any
-- number of calls of `sched` that follow.
pub exit-never_runs :
    (k : Kernel) (status n : ℕ) {p : ℕ} {xs : List ℕ} {k' k'' : Kernel}
    → k.current_proc ≡ some p
    → Holds k.ready_queue xs
    → exit status k ≡ returned k'
    → sched_times n k' ≡ returned k''
    → Differs k''.current_thread (k.procs p).threads
unfolding leave
exit-never_runs k status n {p} {k'' = k''} current h e e' =
    let (r, same) = sched-Running (leave p status k) h (sym (exit-sched k status current) ∙ e) in
    let (r', same') = sched_times-Running n _ r e' in
    live-Differs k''.threads (k.procs p).threads
      (rw (sym (same' ∙ same)) at (leave-AllStopped k status p)) r'.live

-- What the process that left and its threads look like.
pub record Left (p code : ℕ) (k k' : Kernel) : Type 0 where
  pub status : (k'.procs p).status ≡ stopped
  pub xstat : (k'.procs p).xstat ≡ code % 2 ^ 8
  pub threads : AllStopped k'.threads (k.procs p).threads

leave-Left : (k : Kernel) (status p : ℕ) → Left p status k (leave p status k)
unfolding leave
leave-Left k status p =
    let (s, x) = give_children-status p _ _ p in
    record {
      status = s ∙ ap (λ o. o.status) (store_self p _ k.procs);
      xstat = x ∙ ap (λ o. o.xstat) (store_self p _ k.procs);
      threads = leave-AllStopped k status p;
    }

-- If a thread of another process is in the queue and can run, `exit` returns unless the mapping
-- for the next thread is halted: another thread is then the current one, and the process and its
-- threads are marked stopped, with the low byte of the exit status kept.
pub exit-returns :
    (k : Kernel) (status : ℕ) (ahead bs : List ℕ) {p t : ℕ}
    → k.current_proc ≡ some p
    → Holds k.ready_queue (ahead ++ (t ∷ bs))
    → Differs t (k.procs p).threads
    → (k.threads t).status ≢ stopped
    → ((k' : Kernel) × (exit status k ≡ returned k')
        × Left p status k k'
        × Differs k'.current_thread (k.procs p).threads)
      ⊎ (exit status k ≡ mapping_halted)
unfolding leave sched_times
exit-returns k status ahead bs {p} {t} current h d live = elim (sched-cases (leave p status k) h) [
  | inl (_, all) ↦
      let same = stop_threads-others (k.procs p).threads k.threads d in
      absurd (
        live (
          rw (store_self p _ k.procs, same) at
            (AllStopped-middle (leave p status k).threads ahead bs all)))
  | inr (_, _, inr (stop, _), _) ↦ inr (exit-sched k status current ∙ stop)
  | inr (_, _, inl (k', ran, r), _) ↦
      let e = exit-sched k status current ∙ ran in
      inl (
        k',
        e,
        let l = leave-Left k status p in
            record {
              status = rw r.objects.1 l.status;
              xstat = rw r.objects.1 l.xstat;
              threads = rw r.objects.0 l.threads;
            },
        exit-never_runs k status 0 current h e refl,
      )
]
