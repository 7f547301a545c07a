-- ===== src/Fs/Mbr.antt =====
-- fs/mbr.c: the partition table of the first sector. `index` is not checked against the four
-- entries that there are.
use raincloud.Prelude.{ℕ, ◌+◌, ◌*◌, Option, none, some}
use raincloud.Fs.Fat.Volume.{le32}

-- `MBR_Init`: the first sector.
pub mbr_init : (disk : ℕ → ℕ → ℕ) → ℕ → ℕ
mbr_init disk = disk 0

-- The place of `Part_Entry[index]` in the packed record.
abbrev part_entry : ℕ → ℕ
part_entry index = 446 + 16 * index

-- The address and the number of sectors; `none` is -1, for a record that is NULL.
pub get_partition : (record_bytes : Option (ℕ → ℕ)) → (index : ℕ) → Option (ℕ × ℕ)
get_partition none index = none
get_partition (some bytes) index =
    some (le32 bytes (part_entry index + 8), le32 bytes (part_entry index + 12))
