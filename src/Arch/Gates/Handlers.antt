-- ===== src/Arch/Gates/Handlers.antt =====
-- The gates that `int_reg`, `int_unreg` and `__idt_init` leave, as the processor reads them.
use raincloud.Prelude.{
  ℕ, zero, suc, ◌+◌, ◌*◌, ◌/◌, ◌%◌, ◌^◌, ◌≤◌, ◌<◌, ◌≡◌, ◌≢◌, Bool, true, false, refl, ◌⊎◌, inl, inr,
  arith, ◌==◌, ==_iff, ◌∙◌, add64,
}
use raincloud.Paging.{Memory, init_table}
use raincloud.Paging.Shape.{init_table-at}
use raincloud.Paging.Boot.{kernel_image_base}
use raincloud.Arch.Segments.{bits}
use raincloud.Arch.Gates.{
  IntTrapSegDsc, gate_low, gate_high, write_gate, read_gate, registered, gate_type, int_reg,
  idt_base, idt_size, exception_dsc, exception_gates, idt_init,
}

-- How the processor reads a gate.
pub record Gate : Type 0 where
  pub offset : ℕ
  pub selector : ℕ
  pub kind : ℕ
  pub privilege : ℕ
  pub is_there : Bool

abbrev pub gate_of : (low high : ℕ) → Gate
gate_of low high = record {
  offset = bits 0 16 low + bits 48 16 low * 2 ^ 16 + bits 0 32 high * 2 ^ 32;
  selector = bits 16 16 low;
  kind = bits 40 5 low;
  privilege = bits 45 2 low;
  is_there = bits 47 1 low == 1;
}

abbrev pub gate_at : Memory → (idt vector : ℕ) → Gate
gate_at mem idt vector = gate_of (mem (idt + vector * 16)) (mem (idt + vector * 16 + 8))

-- What is asked for: the handler, through the kernel's code segment.
abbrev pub wanted : (offset kind privilege : ℕ) → Gate
wanted offset kind privilege = record {
  offset = offset;
  selector = 5 * 8;
  kind = kind;
  privilege = privilege;
  is_there = true;
}

pub write_gate-at :
    (a : ℕ) (d : IntTrapSegDsc) (mem : Memory)
    → gate_of (write_gate a d mem a) (write_gate a d mem (a + 8))
      ≡ gate_of (gate_low d) (gate_high d)
write_gate-at a d mem =
    let low : (a == (a + 8)) ≡ false = ground arith in
    rw ((==_iff a a).1 refl, (==_iff (a + 8) (a + 8)).1 refl, low) refl

write_gate-outside :
    (a : ℕ) (d : IntTrapSegDsc) (mem : Memory) (b : ℕ)
    → b ≢ a
    → b ≢ a + 8
    → write_gate a d mem b ≡ mem b
write_gate-outside a d mem b n1 n2 =
    let o1 : (b == a) ≡ false = ground arith in
    let o2 : (b == (a + 8)) ≡ false = ground arith in rw (o1, o2) refl

-- The lower word of a gate, from its parts.
abbrev low_word : (a b kind dpl : ℕ) → ℕ
low_word a b kind dpl = a + 40 * 2 ^ 16 + kind * 2 ^ 40 + dpl * 2 ^ 45 + 2 ^ 47 + b * 2 ^ 48

gate_of-low_word :
    (low high a b c kind dpl handle : ℕ)
    → a < 2 ^ 16
    → b < 2 ^ 16
    → kind < 16
    → dpl < 4
    → low ≡ low_word a b kind dpl
    → bits 0 32 high ≡ c
    → a + b * 2 ^ 16 + c * 2 ^ 32 ≡ handle
    → gate_of low high ≡ wanted handle kind dpl
gate_of-low_word low high a b c kind dpl handle sa sb sk sd el eh sum =
    let b0 : bits 0 16 low ≡ a = omega arith in
    let b48 : bits 48 16 low ≡ b = omega arith in
    let b16 : bits 16 16 low ≡ 5 * 8 = omega arith in
    let b40 : bits 40 5 low ≡ kind = omega arith in
    let b45 : bits 45 2 low ≡ dpl = omega arith in
    let b47 : bits 47 1 low ≡ 1 = omega arith in rw (b0, b48, b16, b40, b45, b47, eh, sum) refl

-- The descriptors that the code fills in, whatever their reserved word is.
handler_dsc-wanted :
    (handle kind dpl reserved : ℕ)
    → handle < 2 ^ 64
    → kind < 16
    → dpl < 4
    → gate_of
        (gate_low (record (exception_dsc reserved handle) { type = kind; dpl = dpl }))
        (gate_high (record (exception_dsc reserved handle) { type = kind; dpl = dpl }))
      ≡ wanted handle kind dpl
handler_dsc-wanted handle kind dpl reserved small sk sd =
    gate_of-low_word _ _ (handle % 2 ^ 16) (handle / 2 ^ 16 % 2 ^ 16) (handle / 2 ^ 32 % 2 ^ 32)
      kind dpl handle (omega arith) (omega arith) sk sd (omega arith) (omega arith) (omega arith)

pub write_gate-others :
    (idt vector other : ℕ) (d : IntTrapSegDsc) (mem : Memory)
    → other ≢ vector
    → gate_at (write_gate (idt + vector * 16) d mem) idt other ≡ gate_at mem idt other
write_gate-others idt vector other d mem ne =
    let a = idt + vector * 16 in
    let b = idt + other * 16 in
    rw
      (
        write_gate-outside a d mem b (λ e. ne (omega arith)) (λ e. absurd (omega arith)),
        write_gate-outside a d mem (b + 8) (λ e. absurd (omega arith)) (λ e. ne (omega arith)),
      )
      refl

-- `int_reg` of a vector, as INT or TRAP: the processor finds a gate of that kind, open to
-- privilege 3, that leads to the handler in the kernel's 64-bit code segment; every gate of another
-- vector is what it was.
pub int_reg_lem :
    (idt vector handle type : ℕ) (mem : Memory)
    → handle < 2 ^ 64
    → type < 2
    → (gate_at (int_reg idt vector handle type mem) idt vector ≡ wanted handle (14 + type) 3)
      × ((other : ℕ)
          → other ≢ vector
          → gate_at (int_reg idt vector handle type mem) idt other ≡ gate_at mem idt other)
unfolding int_reg
int_reg_lem idt vector handle type mem small kind =
    let old = read_gate mem (idt + vector * 16) in
    let k : gate_type type old.type ≡ 14 + type = ground arith in
    (
      write_gate-at (idt + vector * 16) (registered handle type old) mem
          ∙ (rw k (
              handler_dsc-wanted handle (14 + type) 3 old.reserved_1 small (omega arith)
                (omega arith))),
      λ other ne. write_gate-others idt vector other (registered handle type old) mem ne,
    )

exception_gates-outside :
    (n a reserved h : ℕ) (mem : Memory) (b : ℕ)
    → b < a ⊎ (a + n * 16 ≤ b)
    → exception_gates n a reserved h mem b ≡ mem b
unfolding exception_gates
exception_gates-outside zero a reserved h mem b out = refl
exception_gates-outside (suc n) a reserved h mem b out =
    let rest : (b < a + 16) ⊎ (a + 16 + n * 16 ≤ b) = elim out [
      | inl under ↦ inl (omega arith)
      | inr above ↦ inr (omega arith)
    ] in
    exception_gates-outside n (a + 16) reserved (add64 h 4) _ b rest
    ∙ write_gate-outside a (exception_dsc reserved h) mem b (λ e. ground (arith, out, e))
        (λ e. ground (arith, out, e))

exception_gates-at :
    (n a reserved h : ℕ) (mem : Memory) (i : ℕ)
    → h < 2 ^ 64
    → i < n
    → gate_at (exception_gates n a reserved h mem) a i ≡ wanted (add64 h (4 * i)) 14 0
unfolding exception_gates
exception_gates-at zero a reserved h mem i small lt = absurd (omega arith)
exception_gates-at (suc n) a reserved h mem zero small lt =
    let d = exception_dsc reserved h in
    let outside = exception_gates-outside n (a + 16) reserved (add64 h 4) (write_gate a d mem) in
    let first : add64 h (4 * 0) ≡ h = omega arith in
    let self : a + 0 * 16 ≡ a = omega arith in
    rw (self, outside a (inl (omega arith)), outside (a + 8) (inl (omega arith)), first)
      (write_gate-at a d mem ∙ handler_dsc-wanted h 14 0 reserved small (omega arith) (omega arith))
exception_gates-at (suc n) a reserved h mem (suc i) small lt =
    let place : a + suc i * 16 ≡ a + 16 + i * 16 = omega arith in
    let offset : add64 h (4 * suc i) ≡ add64 (add64 h 4) (4 * i) = omega arith in
    rw (place, offset)
      (exception_gates-at n (a + 16) reserved (add64 h 4)
        (write_gate a (exception_dsc reserved h) mem) i (omega arith) (omega arith))

-- `__idt_init`: vectors 0 to 15 lead to the exception handler's entries, four bytes apart, through
-- interrupt gates of privilege 0; of vectors 16 to 255 no gate is there.
pub idt_init_lem :
    (exception_handler reserved : ℕ) (mem : Memory) (vector : ℕ)
    → (vector < 16
        → gate_at (idt_init exception_handler reserved mem) idt_base vector
          ≡ wanted (add64 (add64 exception_handler kernel_image_base) (4 * vector)) 14 0)
      × (16 ≤ vector
          → vector < 256
          → (gate_at (idt_init exception_handler reserved mem) idt_base vector).is_there ≡ false)
unfolding idt_init
idt_init_lem exception_handler reserved mem vector = (
  λ lt.
      exception_gates-at 16 idt_base reserved (add64 exception_handler kernel_image_base)
        (init_table (idt_size / 8) idt_base 0 mem) vector (omega arith) lt,
  λ from to.
      let place : idt_base + vector * 16 ≡ idt_base + (vector * 2) * 8 = omega arith in
      let low =
        exception_gates-outside 16 idt_base reserved (add64 exception_handler kernel_image_base)
          (init_table (idt_size / 8) idt_base 0 mem) (idt_base + vector * 16) (inr (omega arith)) in
      let empty = init_table-at (idt_size / 8) idt_base 0 mem (vector * 2) (omega arith) in
      rw (low, place, empty) refl,
)
