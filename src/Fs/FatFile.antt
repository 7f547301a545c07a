-- ===== src/Fs/FatFile.antt =====
-- fs/fs_generic.c, reading and seeking in an open FAT file. Offsets are the 64-bit patterns of the
-- signed `off_t`; the file's size is a 32-bit word.
pub mod Open
use Prim.Native.Nat.{min}
use raincloud.Prelude.{
  ℕ, ◌+◌, ◌-◌, ◌^◌, ◌≤◌, ◌<◌, ◌≡◌, ltb, ◌==◌, if◌then◌else◌, add64, sub64, arith,
}

-- `fat_context_t`, as far as these two use it. `memcpy` copies from `buf`, the whole file.
pub record FatContext : Type 0 where
  pub file_size : ℕ
  pub offset : ℕ

-- Where in the file's buffer `memcpy` reads, and how many bytes.
pub record FatReadResult : Type 0 where
  pub from : ℕ
  pub size : ℕ
  pub context : FatContext

abbrev copy_out : FatContext → ℕ → FatReadResult
copy_out c size = record {
  from = c.offset;
  size = size;
  context = record c { offset = add64 c.offset size };
}

pub fat_read : FatContext → ℕ → FatReadResult
fat_read c size =
    copy_out c (if ltb c.file_size (add64 c.offset size) then sub64 c.file_size c.offset else size)

-- -1 as a 64-bit pattern.
abbrev pub minus_one : ℕ
minus_one = 2 ^ 64 - 1

-- `whence`: 0 from the start, 1 from the offset, 2 from the end.
pub fat_lseek : FatContext → ℕ → ℕ → ℕ × FatContext
fat_lseek c offset whence =
    if whence == 0
    then seek_to offset
    else if whence == 1
    then seek_to (add64 c.offset offset)
    else if whence == 2
    then seek_to (add64 c.file_size offset)
    else (minus_one, c)
  where
    seek_to : ℕ → ℕ × FatContext
    seek_to target = (target, record c { offset = target })

-- Inside the file, a read that does not wrap the offset takes what was asked or what is left,
-- whichever is less, lies inside the file's buffer, and moves the offset by what it took.
pub fat_read_within :
    (c : FatContext) (size : ℕ)
    → c.file_size < 2 ^ 32
    → c.offset ≤ c.file_size
    → size < 2 ^ 64 - 2 ^ 32
    → let r = fat_read c size in
      (r.from ≡ c.offset)
      × (r.size ≡ min size (c.file_size - c.offset))
      × (r.from + r.size ≤ c.file_size)
      × (r.context.offset ≡ c.offset + r.size)
      × (r.context.offset ≤ c.file_size)
unfolding fat_read
fat_read_within c size small inside word = ground arith

-- Behind the end of the file the subtraction wraps: a read that does not wrap the offset takes
-- 2 ^ 64 less the distance from the end, and puts the offset back to the file's size.
pub fat_read_beyond :
    (c : FatContext) (size : ℕ)
    → c.file_size < 2 ^ 32
    → c.file_size < c.offset
    → c.offset + size < 2 ^ 64
    → let r = fat_read c size in
      (r.size ≡ 2 ^ 64 - (c.offset - c.file_size)) × (r.context.offset ≡ c.file_size)
unfolding fat_read
fat_read_beyond c size small beyond word = ground arith

-- A seek to an offset from the start, and the read that follows it: the bytes from that offset on,
-- as many as were asked, if they lie in the file.
pub fat_read-fat_lseek :
    (c : FatContext) (offset size : ℕ)
    → c.file_size < 2 ^ 32
    → offset + size ≤ c.file_size
    → let (at, c') = fat_lseek c offset 0 in
      let r = fat_read c' size in
      (at ≡ offset) × (r.from ≡ offset) × (r.size ≡ size) × (r.context.offset ≡ offset + size)
unfolding fat_read fat_lseek
fat_read-fat_lseek c offset size small inside = ground arith
