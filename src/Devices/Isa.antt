-- ===== src/Devices/Isa.antt =====
-- arch/x86/isa.c: the timer, the interrupt controllers, and the sectors of the disk.
pub mod Sectors
use raincloud.Prelude.{
  ℕ, zero, suc, ◌+◌, ◌-◌, ◌*◌, ◌^◌, ◌/◌, ◌%◌, Bool, true, false, Option, none, some, List, [], ◌∷◌,
  ◌++◌, ◌==◌, if◌then◌else◌, ltb, leb,
}
use raincloud.Devices.{
  PortEvent, Run, Io, return_io, after, ◌>>=◌, ◌>>◌, io_write_8, io_write_16, io_read_8, io_read_16,
  bit_of, wait_bit,
}

-- `ch << 6 | 3 << 4 | mode << 1`, for a channel below 3 and a mode below 6.
unfoldable pub timer_82c54_init : (ch mode counter : ℕ) → Io (Unit {0})
timer_82c54_init ch mode counter = do
  io_write_8 0x43 (ch * 2 ^ 6 + 3 * 2 ^ 4 + mode * 2)
  io_write_8 0x40 counter
  io_write_8 0x40 (counter / 2 ^ 8)

-- `vec_base & 0xf8` of a byte.
unfoldable pub pic_8259_init : (vec_base : ℕ) → Io (Unit {0})
pic_8259_init vec_base = do
  io_write_8 0x20 0x11
  io_write_8 0x21 (vec_base / 8 * 8)
  io_write_8 0x21 4
  io_write_8 0x21 3
  io_write_8 0x21 0xfb
  io_write_8 0xa0 0x11
  io_write_8 0xa1 (vec_base / 8 * 8 + 8)
  io_write_8 0xa1 2
  io_write_8 0xa1 3
  io_write_8 0xa1 0xff

-- `v | 1 << k` and `v & ~(1 << k)`.
abbrev pub with_bit : (v k : ℕ) → ℕ
with_bit v k = if bit_of v k then v else v + 2 ^ k

abbrev pub without_bit : (v k : ℕ) → ℕ
without_bit v k = if bit_of v k then v - 2 ^ k else v

abbrev pub mask_port : ℕ → ℕ
mask_port irq = if ltb irq 8 then 0x21 else 0xa1

abbrev pub mask_bit : ℕ → ℕ
mask_bit irq = if ltb irq 8 then irq else irq - 8

-- `none` as the value is the failed `assert`.
unfoldable pub pic_8259_mask_int : (irq : ℕ) → Io (Option (Unit {0}))
pic_8259_mask_int irq =
    if leb irq 15
    then (io_read_8 (mask_port irq) >>= λ v.
        io_write_8 (mask_port irq) (with_bit v (mask_bit irq)) >> return_io (some tt))
    else return_io none

unfoldable pub pic_8259_unmask_int : (irq : ℕ) → Io (Option (Unit {0}))
pic_8259_unmask_int irq =
    if leb irq 15
    then (io_read_8 (mask_port irq) >>= λ v.
        io_write_8 (mask_port irq) (without_bit v (mask_bit irq)) >> return_io (some tt))
    else return_io none

-- The registers of the primary channel.
abbrev pub reg_data : ℕ
reg_data = 0x1f0

abbrev pub reg_features : ℕ
reg_features = 0x1f1

abbrev pub reg_sector_count : ℕ
reg_sector_count = 0x1f2

abbrev pub reg_sector_number : ℕ
reg_sector_number = 0x1f3

abbrev pub reg_cylinder_low : ℕ
reg_cylinder_low = 0x1f4

abbrev pub reg_cylinder_high : ℕ
reg_cylinder_high = 0x1f5

abbrev pub reg_drive_head : ℕ
reg_drive_head = 0x1f6

abbrev pub reg_status_command : ℕ
reg_status_command = 0x1f7

abbrev pub status_bsy : ℕ
status_bsy = 7

abbrev pub status_err : ℕ
status_err = 0

abbrev pub command_read_sector : ℕ
command_read_sector = 0x20

abbrev pub command_write_sector : ℕ
command_write_sector = 0x30

pub data PioResult (A : Type 0) : Type 0 where
  ok : A → PioResult A
  drive_error : ℕ → PioResult A
  assert_failed : PioResult A

-- The registers of a command for one sector; `lba >> 24 | 1 << 6` of an address below 2 ^ 28.
abbrev pub set_registers : (lba command : ℕ) → Io (Unit {0})
set_registers lba command = do
  io_write_8 reg_features 0
  io_write_8 reg_sector_count 1
  io_write_8 reg_sector_number lba
  io_write_8 reg_cylinder_low (lba / 2 ^ 8)
  io_write_8 reg_cylinder_high (lba / 2 ^ 16)
  io_write_8 reg_drive_head (lba / 2 ^ 24 + 2 ^ 6)
  io_write_8 reg_status_command command

unfoldable pub address_sector : (lba command : ℕ) → Io (Unit {0})
unfolding wait_bit
address_sector lba command =
    wait_bit false reg_status_command status_bsy >> set_registers lba command

unfoldable pub read_words : (count : ℕ) → Io (List ℕ)
read_words zero = return_io []
read_words (suc count) = io_read_16 reg_data >>= λ w. read_words count >>= λ ws. return_io (w ∷ ws)

unfoldable pub write_words : List ℕ → Io (Unit {0})
write_words [] = return_io tt
write_words (w ∷ ws) = io_write_16 reg_data w >> write_words ws

abbrev pub move_data : {A : Type 0} → Io A → (status : ℕ) → Io (PioResult A)
move_data move status =
    if bit_of status status_err
    then (io_read_8 reg_features >>= λ e. return_io (drive_error e))
    else (wait_bit false reg_status_command status_bsy >> (move >>= λ a. return_io (ok a)))

abbrev pub transfer : {A : Type 0} → (lba command : ℕ) → Io A → Io (PioResult A)
transfer lba command move =
    if ltb lba (2 ^ 28)
    then (address_sector lba command >> (io_read_8 reg_status_command >>= move_data move))
    else return_io assert_failed

-- The 256 words of a sector.
unfoldable pub pio_read_sector : (lba : ℕ) → Io (PioResult (List ℕ))
unfolding address_sector read_words write_words
pio_read_sector lba = transfer lba command_read_sector (read_words 256)

unfoldable pub pio_write_sector : (buf : List ℕ) → (lba : ℕ) → Io (PioResult (Unit {0}))
unfolding address_sector read_words write_words
pio_write_sector buf lba = transfer lba command_write_sector (write_words buf)
