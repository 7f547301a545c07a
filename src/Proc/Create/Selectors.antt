-- ===== src/Proc/Create/Selectors.antt =====
-- proc/thread.c, `thread_init`, and the table of segments of arch/x86/init/init_dsc_tables.c.
use raincloud.Prelude.{ℕ, ◌≡◌, refl, true, false, Option, none, some, ap, if◌then◌else◌, arith}
use raincloud.Paging.{Memory}
use raincloud.Arch.Segments.{segment_at, Segment, gdt_init, gdt_init-planned, read_sel}
use raincloud.Proc.Sched.{Thread, store}
use raincloud.Proc.Sched.Exit.{store_self}
use raincloud.Proc.Create.{
  Context, World, is_null, init_context, thread_init, attach, reg_flags_if_mask,
}

-- The segment of the table that a selector selects, and its privilege.
abbrev pub selected : Memory → ℕ → Segment
selected mem sel = segment_at mem (read_sel sel).index

abbrev pub level : Option ℕ → ℕ
level proc = if is_null proc then 0 else 3

abbrev pub code_segment : (privilege : ℕ) → Segment
code_segment privilege = record {
  privilege = privilege;
  is_there = true;
  is_system = false;
  is_code = true;
  is_long = true;
}

abbrev pub data_segment : (privilege : ℕ) → Segment
data_segment privilege = record {
  privilege = privilege;
  is_there = true;
  is_system = false;
  is_code = false;
  is_long = false;
}

-- The context of a thread that begins: interrupts are on, CS selects 64-bit code and SS data, both
-- with the privilege that the selector asks for.
pub record Begins (mem : Memory) (proc : Option ℕ) (entrypoint stack_top : ℕ) (c : Context)
    : Type 0 where
  pub rip : c.rip ≡ entrypoint
  pub rsp : c.rsp ≡ stack_top
  pub rflags : c.rflags ≡ reg_flags_if_mask
  pub code : selected mem c.cs ≡ code_segment (level proc)
  pub stack : selected mem c.ss ≡ data_segment (level proc)
  pub code_level : (read_sel c.cs).rpl ≡ level proc
  pub stack_level : (read_sel c.ss).rpl ≡ level proc

init_context-Begins :
    (mem : Memory) (proc : Option ℕ) (entrypoint stack_top : ℕ)
    → Begins (gdt_init mem) proc entrypoint stack_top (init_context proc entrypoint stack_top)
init_context-Begins mem none entrypoint stack_top = record {
  rip = refl;
  rsp = refl;
  rflags = refl;
  code = gdt_init-planned mem 4 (omega arith);
  stack = gdt_init-planned mem 0 (omega arith);
  code_level = refl;
  stack_level = refl;
}
init_context-Begins mem (some p) entrypoint stack_top = record {
  rip = refl;
  rsp = refl;
  rflags = refl;
  code = gdt_init-planned mem 7 (omega arith);
  stack = gdt_init-planned mem 3 (omega arith);
  code_level = refl;
  stack_level = refl;
}

-- A thread that `thread_init` has made begins at its entry point on its stack. With the table of
-- `__gdt_init` its CS selects 64-bit code and its SS data, of the privilege that they ask for, 0
-- for a thread of the kernel and 3 for one of a process, which has the thread at the end of its
-- list.
pub thread_init-Begins :
    (t : ℕ) (proc : Option ℕ) (entrypoint stack_top : ℕ) (w : World) (mem : Memory)
    → Begins
        (gdt_init mem)
        proc
        entrypoint
        stack_top
        ((thread_init t proc entrypoint stack_top w).contexts t)
      × ((thread_init t proc entrypoint stack_top w).kernel.procs ≡ attach t proc w.kernel.procs)
      × (((thread_init t proc entrypoint stack_top w).kernel.threads t).proc ≡ proc)
unfolding thread_init
thread_init-Begins t proc entrypoint stack_top w mem =
    let made : store t (init_context proc entrypoint stack_top) w.contexts t
        ≡ init_context proc entrypoint stack_top =
      store_self t _ _ in
    (
      rw made (init_context-Begins mem proc entrypoint stack_top),
      refl,
      ap (λ (o : Thread). o.proc) (store_self t _ _),
    )
