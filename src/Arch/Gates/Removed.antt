-- ===== src/Arch/Gates/Removed.antt =====
-- arch/x86/int_ctl.c, `int_unreg`.
use raincloud.Prelude.{ℕ, ◌+◌, ◌*◌, ◌/◌, ◌%◌, ◌^◌, ◌<◌, ◌≡◌, ◌≢◌, false, refl, arith, ◌∙◌}
use raincloud.Paging.{Memory}
use raincloud.Arch.Segments.{bits, sel_word, read_sel}
use raincloud.Arch.Gates.{gate_low, gate_high, read_gate, int_unreg}
use raincloud.Arch.Gates.Handlers.{gate_at, write_gate-at, write_gate-others}

sel_word-read_sel : (s : ℕ) → s < 2 ^ 16 → sel_word (read_sel s) ≡ s
sel_word-read_sel s small = omega arith

-- The lower word without its present bit.
abbrev without_p : ℕ → ℕ
without_p w = w % 2 ^ 47 + w / 2 ^ 48 % 2 ^ 16 * 2 ^ 48

gate_low-without_p :
    (mem : Memory) (a : ℕ) → gate_low (record (read_gate mem a) { p = 0 }) ≡ without_p (mem a)
gate_low-without_p mem a =
    let w = mem a in
    let sel = sel_word-read_sel (bits 16 16 w) (omega arith) in rw sel (omega arith)

-- `int_unreg` of a vector: the processor finds the gate as before, but not there; every gate of
-- another vector is what it was.
pub int_unreg_lem :
    (idt vector : ℕ) (mem : Memory)
    → (gate_at (int_unreg idt vector mem) idt vector
        ≡ record (gate_at mem idt vector) { is_there = false })
      × ((other : ℕ)
          → other ≢ vector
          → gate_at (int_unreg idt vector mem) idt other ≡ gate_at mem idt other)
unfolding int_unreg
int_unreg_lem idt vector mem =
    let a = idt + vector * 16 in
    let w = mem a in
    let d = record (read_gate mem a) { p = 0 } in
    let low = gate_low-without_p mem a in
    let b0 : bits 0 16 (without_p w) ≡ bits 0 16 w = omega arith in
    let b48 : bits 48 16 (without_p w) ≡ bits 48 16 w = omega arith in
    let b16 : bits 16 16 (without_p w) ≡ bits 16 16 w = omega arith in
    let b40 : bits 40 5 (without_p w) ≡ bits 40 5 w = omega arith in
    let b45 : bits 45 2 (without_p w) ≡ bits 45 2 w = omega arith in
    let b47 : bits 47 1 (without_p w) ≡ 0 = omega arith in
    let high : bits 0 32 (gate_high d) ≡ bits 0 32 (mem (a + 8)) = omega arith in
    (
      write_gate-at a d mem ∙ rw (low, b0, b48, b16, b40, b45, b47, high) refl,
      λ other ne. write_gate-others idt vector other d mem ne,
    )
