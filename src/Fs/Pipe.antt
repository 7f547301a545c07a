-- ===== src/Fs/Pipe.antt =====
-- fs/fs_special.c: the pipe, a ring of bytes.
pub mod Window
pub mod Queue
use raincloud.Prelude.{
  ℕ, zero, suc, ◌+◌, List, [], ◌∷◌, leb, ◌==◌, if◌then◌else◌, add64, sub64, length, get_or, set,
  take,
}

-- `pipe_context_t`; `buf` is the ring's storage.
pub record PipeContext : Type 0 where
  pub buf : List ℕ
  pub write_offset : ℕ
  pub read_offset : ℕ
  pub length : ℕ

abbrev pub pipe_buffer_size : ℕ
pipe_buffer_size = 4096

-- `storage` is what `malloc` gave for the buffer.
pub pipe_open : List ℕ → PipeContext
pipe_open storage = record { buf = storage; write_offset = 0; read_offset = 0; length = 0 }

-- `offset ++`, and back to 0 at the end of the storage.
abbrev pub advance : ℕ → ℕ
advance offset = if offset + 1 == pipe_buffer_size then 0 else offset + 1

-- The loop of `pipe_read`, `size` rounds: the bytes read, and the read offset.
pub read_loop : ℕ → List ℕ → ℕ → List ℕ × ℕ
read_loop zero buf offset = ([], offset)
read_loop (suc size) buf offset =
    let (out, offset') = read_loop size buf (advance offset) in (get_or buf offset 0 ∷ out, offset')

-- The loop of `pipe_write` over the bytes that fit: the storage, and the write offset.
pub write_loop : List ℕ → List ℕ → ℕ → List ℕ × ℕ
write_loop [] buf offset = (buf, offset)
write_loop (x ∷ xs) buf offset = write_loop xs (set buf offset x) (advance offset)

-- The bytes that went to the caller's buffer, whose number is returned.
pub pipe_read : PipeContext → ℕ → List ℕ × PipeContext
unfolding read_loop
pipe_read c size =
    let n = if leb size c.length then size else c.length in
    let (out, offset) = read_loop n c.buf c.read_offset in
    (out, record c { read_offset = offset; length = sub64 c.length n })

-- `src` is the caller's buffer, of `size` bytes. The number of bytes taken is returned.
pub pipe_write : PipeContext → List ℕ → ℕ × PipeContext
unfolding write_loop
pipe_write c src =
    let room = sub64 pipe_buffer_size c.length in
    let n = if leb (length src) room then length src else room in
    let (buf, offset) = write_loop (take n src) c.buf c.write_offset in
    (n, record c { buf = buf; write_offset = offset; length = add64 c.length n })
