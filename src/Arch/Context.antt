-- ===== src/Arch/Context.antt =====
-- arch/x86/context.c: the registers of a thread, between the stack of an interrupt and the
-- thread's context.
pub mod Loops
pub mod Switch
use raincloud.Prelude.{
  ℕ, zero, suc, ◌+◌, ◌-◌, ◌*◌, ◌≤◌, ◌<◌, ◌≡◌, ◌≢◌, Bool, true, false, ◌||◌, arith, refl, ◌⊎◌, inl,
  inr, ◌==◌, if◌then◌else◌, ◌∙◌, ltb, ltb→lt, ap, Bool-cases, sym,
}
use raincloud.Paging.{Memory, write}

-- The words of a `context_t`.
abbrev pub context_register_count : ℕ
context_register_count = 22

pub save_loop : (rounds i save_location stack_top : ℕ) → Memory → Memory
save_loop zero i save_location stack_top mem = mem
save_loop (suc n) i save_location stack_top mem =
    let skipped = save_loop n (i + 1) save_location (stack_top + 8) mem in
    let saved =
      save_loop n (i + 1) (save_location + 8) (stack_top + 8)
        (write save_location (mem stack_top) mem) in
    if i == 17 then skipped else saved

pub context_save : (save_context stack_top : ℕ) → Memory → Memory
unfolding save_loop
context_save save_context stack_top mem =
    if save_context == 0 || stack_top == 0
    then mem
    else save_loop (context_register_count + 1) 0 save_context stack_top mem

pub load_loop : (rounds i load_location stack_top : ℕ) → Memory → Memory
load_loop zero i load_location stack_top mem = mem
load_loop (suc n) i load_location stack_top mem =
    let skipped = load_loop n (i + 1) load_location (stack_top + 8) mem in
    let loaded =
      load_loop n (i + 1) (load_location + 8) (stack_top + 8)
        (write stack_top (mem load_location) mem) in
    if i == 17 then skipped else loaded

pub context_load : (load_context stack_top : ℕ) → Memory → Memory
unfolding load_loop
context_load load_context stack_top mem =
    if load_context == 0 || stack_top == 0
    then mem
    else load_loop (context_register_count + 1) 0 load_context stack_top mem
