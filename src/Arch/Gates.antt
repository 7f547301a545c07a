-- ===== src/Arch/Gates.antt =====
-- arch/x86/segments.h, arch/x86/int_ctl.c and arch/x86/init/init_dsc_tables.c: the gates of
-- interrupts and traps.
pub mod Handlers
pub mod Removed
use raincloud.Prelude.{
  ℕ, zero, suc, ◌+◌, ◌-◌, ◌*◌, ◌/◌, ◌%◌, ◌^◌, ◌≤◌, ◌<◌, ◌≡◌, ◌≢◌, Bool, true, false, ◌&&◌, refl,
  ◌⊎◌, inl, inr, arith, ◌==◌, if◌then◌else◌, ==_iff, ap, ◌∙◌, sym, add64, Bool-cases,
}
use raincloud.Paging.{Memory, write, init_table}
use raincloud.Paging.Shape.{init_table-outside}
use raincloud.Paging.Boot.{kernel_image_base}
use raincloud.Arch.Segments.{put, bits, SegSel, sel_word, read_sel}

pub record IntTrapSegDsc : Type 0 where
  pub offset_0_15 : ℕ
  pub seg_sel : SegSel
  pub ist : ℕ
  pub zero_1 : ℕ
  pub type : ℕ
  pub zero_2 : ℕ
  pub dpl : ℕ
  pub p : ℕ
  pub offset_16_31 : ℕ
  pub offset_32_63 : ℕ
  pub reserved_1 : ℕ

abbrev pub gate_low : IntTrapSegDsc → ℕ
gate_low d = put 16 d.offset_0_15 (
    put 16 (sel_word d.seg_sel) (
      put 3 d.ist (
        put 5 d.zero_1
          (put 4 d.type (put 1 d.zero_2 (put 2 d.dpl (put 1 d.p (put 16 d.offset_16_31 0))))))))

abbrev pub gate_high : IntTrapSegDsc → ℕ
gate_high d = put 32 d.offset_32_63 (put 32 d.reserved_1 0)

abbrev pub write_gate : ℕ → IntTrapSegDsc → Memory → Memory
write_gate a d mem = write (a + 8) (gate_high d) (write a (gate_low d) mem)

abbrev pub read_gate : Memory → ℕ → IntTrapSegDsc
read_gate mem a = record {
  offset_0_15 = bits 0 16 (mem a);
  seg_sel = read_sel (bits 16 16 (mem a));
  ist = bits 32 3 (mem a);
  zero_1 = bits 35 5 (mem a);
  type = bits 40 4 (mem a);
  zero_2 = bits 44 1 (mem a);
  dpl = bits 45 2 (mem a);
  p = bits 47 1 (mem a);
  offset_16_31 = bits 48 16 (mem a);
  offset_32_63 = bits 0 32 (mem (a + 8));
  reserved_1 = bits 32 32 (mem (a + 8));
}

abbrev pub dsc_type_init : ℕ
dsc_type_init = 0xe

abbrev pub dsc_type_trap : ℕ
dsc_type_trap = 0xf

-- The 64-bit code segment of the kernel.
abbrev pub kernel_code : SegSel
kernel_code = record { rpl = 0; ti = 0; index = 5 }

-- The type of a gate; one that is neither INT nor TRAP is reported, and the field is left.
abbrev pub gate_type : (type old : ℕ) → ℕ
gate_type type old = if type == 0 then dsc_type_init else if type == 1 then dsc_type_trap else old

-- What `int_reg` sets of a descriptor.
abbrev pub registered : (handle type : ℕ) → IntTrapSegDsc → IntTrapSegDsc
registered handle type dsc = record dsc {
  offset_0_15 = handle % 2 ^ 16;
  seg_sel = kernel_code;
  ist = 0;
  zero_1 = 0;
  type = gate_type type dsc.type;
  zero_2 = 0;
  dpl = 3;
  p = 1;
  offset_16_31 = handle / 2 ^ 16 % 2 ^ 16;
  offset_32_63 = handle / 2 ^ 32 % 2 ^ 32;
}

pub int_reg : (idt vector handle type : ℕ) → Memory → Memory
int_reg idt vector handle type mem =
    write_gate (idt + vector * 16) (registered handle type (read_gate mem (idt + vector * 16))) mem

pub int_unreg : (idt vector : ℕ) → Memory → Memory
int_unreg idt vector mem =
    write_gate (idt + vector * 16) (record (read_gate mem (idt + vector * 16)) { p = 0 }) mem

abbrev pub idt_base : ℕ
idt_base = 0x10000

abbrev pub idt_size : ℕ
idt_size = 0x1000

-- `exception_handler_dsc`; its reserved word is never set.
abbrev pub exception_dsc : (reserved handler_addr : ℕ) → IntTrapSegDsc
exception_dsc reserved handler_addr = record {
  offset_0_15 = handler_addr % 2 ^ 16;
  seg_sel = kernel_code;
  ist = 0;
  zero_1 = 0;
  type = dsc_type_init;
  zero_2 = 0;
  dpl = 0;
  p = 1;
  offset_16_31 = handler_addr / 2 ^ 16 % 2 ^ 16;
  offset_32_63 = handler_addr / 2 ^ 32 % 2 ^ 32;
  reserved_1 = reserved;
}

-- The loop of `__idt_init` over the gates from `a` on.
pub exception_gates : (rounds a reserved handler_addr : ℕ) → Memory → Memory
exception_gates zero a reserved handler_addr mem = mem
exception_gates (suc n) a reserved handler_addr mem =
    exception_gates n (a + 16) reserved (add64 handler_addr 4)
      (write_gate a (exception_dsc reserved handler_addr) mem)

-- `exception_handler` is the address that the linker gives it.
pub idt_init : (exception_handler reserved : ℕ) → Memory → Memory
unfolding exception_gates
idt_init exception_handler reserved mem =
    exception_gates 16 idt_base reserved (add64 exception_handler kernel_image_base)
      (init_table (idt_size / 8) idt_base 0 mem)
