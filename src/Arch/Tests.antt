-- ===== src/Arch/Tests.antt =====
-- Gates and contexts: the theorems at concrete inputs.
use raincloud.Prelude.{ℕ, ◌+◌, ◌*◌, ◌<◌, ◌≡◌, ◌≢◌, arith, inl}
use raincloud.Paging.{Memory}
use raincloud.Arch.Context.{context_save, context_load}
use raincloud.Arch.Context.Switch.{slot, context_load-context_save}
use raincloud.Arch.Gates.{int_reg}
use raincloud.Arch.Gates.Handlers.{gate_at, wanted, int_reg_lem}

abbrev counting : Memory
counting a = a + 3

int_reg_lem_example :
    (gate_at (int_reg 0x10000 0x80 0xffffffff80101234 1 counting) 0x10000 0x80
      ≡ wanted 0xffffffff80101234 15 3)
    × ((other : ℕ)
        → other ≢ 0x80
        → gate_at (int_reg 0x10000 0x80 0xffffffff80101234 1 counting) 0x10000 other
          ≡ gate_at counting 0x10000 other)
int_reg_lem_example =
    int_reg_lem 0x10000 0x80 0xffffffff80101234 1 counting (omega arith) (omega arith)

context_load-context_save_example :
    ((k : ℕ)
      → k < 22
      → context_load 0x1000 0x3000 (context_save 0x1000 0x2000 counting) (0x3000 + slot k * 8)
        ≡ counting (0x2000 + slot k * 8))
    × (context_load 0x1000 0x3000 (context_save 0x1000 0x2000 counting) (0x3000 + 17 * 8)
        ≡ counting (0x3000 + 17 * 8))
context_load-context_save_example =
    context_load-context_save 0x1000 0x2000 0x3000 counting (omega arith) (omega arith)
      (omega arith) (inl (omega arith)) (inl (omega arith))
