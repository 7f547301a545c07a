-- ===== src/Arch/Segments.antt =====
-- arch/x86/segments.h and arch/x86/init/init_dsc_tables.c: the descriptors of segments, and the
-- selectors that arch/x86/init/init_dsc_tables.c and proc/thread.c load.
use raincloud.Prelude.{
  ℕ, suc, ◌+◌, ◌-◌, ◌*◌, ◌/◌, ◌%◌, ◌^◌, ◌<◌, ◌≡◌, Bool, true, false, refl, List, [], ◌∷◌, ◌==◌, ltb,
  each_below,
}
use raincloud.Paging.{Memory, write, init_table}
use raincloud.Mm.Pages.{phy_map_base}

-- A field of a word, above it the fields that follow, and a field read.
abbrev pub put : (width field rest : ℕ) → ℕ
put width field rest = field % 2 ^ width + rest * 2 ^ width

abbrev pub bits : (from width word : ℕ) → ℕ
bits from width word = word / 2 ^ from % 2 ^ width

pub record SegSel : Type 0 where
  pub rpl : ℕ
  pub ti : ℕ
  pub index : ℕ

abbrev pub sel_word : SegSel → ℕ
sel_word s = put 2 s.rpl (put 1 s.ti (put 13 s.index 0))

abbrev pub read_sel : ℕ → SegSel
read_sel w = record { rpl = bits 0 2 w; ti = bits 2 1 w; index = bits 3 13 w }

pub record SegDsc : Type 0 where
  pub seg_limit_0_15 : ℕ
  pub base_0_15 : ℕ
  pub base_16_23 : ℕ
  pub type : ℕ
  pub s : ℕ
  pub dpl : ℕ
  pub p : ℕ
  pub seg_limit_16_19 : ℕ
  pub avl : ℕ
  pub l : ℕ
  pub d_b : ℕ
  pub g : ℕ
  pub base_24_31 : ℕ

abbrev pub seg_word : SegDsc → ℕ
seg_word d = put 16 d.seg_limit_0_15 (
    put 16 d.base_0_15 (
      put 8 d.base_16_23 (
        put 4 d.type (
          put 1 d.s (
            put 2 d.dpl (
              put 1 d.p (
                put 4 d.seg_limit_16_19
                  (put 1 d.avl (put 1 d.l (put 1 d.d_b (put 1 d.g (put 8 d.base_24_31 0))))))))))))

pub record TssLdtDsc : Type 0 where
  pub seg_limit_0_15 : ℕ
  pub base_0_15 : ℕ
  pub base_16_23 : ℕ
  pub type : ℕ
  pub dpl : ℕ
  pub p : ℕ
  pub seg_limit_16_19 : ℕ
  pub avl : ℕ
  pub g : ℕ
  pub base_24_31 : ℕ
  pub base_32_63 : ℕ

-- Its two words; the fields for zeroes and the reserved ones stay zero.
abbrev pub tss_words : TssLdtDsc → List ℕ
tss_words d =
    put 16 d.seg_limit_0_15 (
      put 16 d.base_0_15 (
        put 8 d.base_16_23 (
          put 4 d.type (
            put 1 0 (
              put 2 d.dpl (
                put 1 d.p (
                  put 4 d.seg_limit_16_19
                    (put 1 d.avl (put 2 0 (put 1 d.g (put 8 d.base_24_31 0)))))))))))
    ∷ put 32 d.base_32_63 0
    ∷ []

abbrev pub gdt_base : ℕ
gdt_base = 0

abbrev pub gdt_size : ℕ
gdt_size = 0x10000

abbrev pub tss_base : ℕ
tss_base = 0x11000

abbrev pub tss_size : ℕ
tss_size = 0x68

abbrev pub seg_t_d_rw_a : ℕ
seg_t_d_rw_a = 0x3

abbrev pub seg_t_c_ex_r_a : ℕ
seg_t_c_ex_r_a = 0xb

abbrev pub dsc_type_tss : ℕ
dsc_type_tss = 0x9

-- What `__gdt_init` sets of a cleared descriptor.
abbrev pub segment : (l type dpl : ℕ) → SegDsc
segment l type dpl = record {
  seg_limit_0_15 = 0;
  base_0_15 = 0;
  base_16_23 = 0;
  type = type;
  s = 1;
  dpl = dpl;
  p = 1;
  seg_limit_16_19 = 0;
  avl = 0;
  l = l;
  d_b = 0;
  g = 0;
  base_24_31 = 0;
}

abbrev pub tss_descriptor : TssLdtDsc
tss_descriptor =
    let base = tss_base + phy_map_base in
    record {
      seg_limit_0_15 = tss_size - 1;
      base_0_15 = base % 2 ^ 16;
      base_16_23 = base / 2 ^ 16 % 2 ^ 8;
      type = dsc_type_tss;
      dpl = 0;
      p = 1;
      seg_limit_16_19 = 0;
      avl = 1;
      g = 0;
      base_24_31 = base / 2 ^ 24 % 2 ^ 8;
      base_32_63 = base / 2 ^ 32 % 2 ^ 32;
    }

abbrev pub gdt : List ℕ
gdt =
    0
    ∷ seg_word (segment 0 seg_t_d_rw_a 0)
    ∷ seg_word (segment 0 seg_t_d_rw_a 1)
    ∷ seg_word (segment 0 seg_t_d_rw_a 2)
    ∷ seg_word (segment 0 seg_t_d_rw_a 3)
    ∷ seg_word (segment 1 seg_t_c_ex_r_a 0)
    ∷ seg_word (segment 1 seg_t_c_ex_r_a 1)
    ∷ seg_word (segment 1 seg_t_c_ex_r_a 2)
    ∷ seg_word (segment 1 seg_t_c_ex_r_a 3)
    ∷ seg_word (segment 0 seg_t_c_ex_r_a 0)
    ∷ seg_word (segment 0 seg_t_c_ex_r_a 1)
    ∷ seg_word (segment 0 seg_t_c_ex_r_a 2)
    ∷ seg_word (segment 0 seg_t_c_ex_r_a 3)
    ∷ tss_words tss_descriptor

pub write_words : (a : ℕ) → List ℕ → Memory → Memory
write_words a [] mem = mem
write_words a (w ∷ ws) mem = write_words (a + 8) ws (write a w mem)

-- `memset` to zero, and the descriptors from the null one on.
pub gdt_init : Memory → Memory
unfolding write_words
gdt_init mem = write_words gdt_base gdt (init_table (gdt_size / 8) gdt_base 0 mem)

-- How the processor reads a descriptor of a segment: its privilege, whether it is there and is
-- one of code or data, its type, and whether the code is 64-bit.
pub record Segment : Type 0 where
  pub privilege : ℕ
  pub is_there : Bool
  pub is_system : Bool
  pub is_code : Bool
  pub is_long : Bool

abbrev pub segment_at : Memory → ℕ → Segment
segment_at mem index =
    let w = mem (gdt_base + index * 8) in
    record {
      privilege = bits 45 2 w;
      is_there = bits 47 1 w == 1;
      is_system = bits 44 1 w == 0;
      is_code = bits 43 1 w == 1;
      is_long = bits 53 1 w == 1;
    }

-- What the index says: data, 64-bit code and 32-bit code, four each, by privilege.
abbrev pub planned : ℕ → Segment
planned i = record {
  privilege = i % 4;
  is_there = true;
  is_system = false;
  is_code = ltb 3 i;
  is_long = i / 4 == 1;
}

-- The descriptor after the null one and `i` others.
pub gdt_init-planned :
    (mem : Memory) (i : ℕ) → i < 12 → segment_at (gdt_init mem) (suc i) ≡ planned i
unfolding gdt_init
gdt_init-planned mem =
    each_below 12 (λ i. segment_at (gdt_init mem) (suc i) ≡ planned i)
      (
        refl,
        (refl, (refl, (refl, (refl, (refl, (refl, (refl, (refl, (refl, (refl, (refl, tt))))))))))),
      )
