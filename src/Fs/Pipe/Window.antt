-- ===== src/Fs/Pipe/Window.antt =====
-- fs/fs_special.c: the bytes that the pipe holds, oldest first.
use native.Mathlib.Nat.{add-zero}
use Prim.Native.Nat.{min}
use raincloud.Prelude.{
  ℕ, zero, suc, ◌+◌, ◌%◌, ◌≤◌, ◌<◌, ◌≡◌, refl, ap, ◌∙◌, sym, ◌^◌, List, [], ◌∷◌, ◌++◌, arith,
  length, get_or, set, take, length-set, length-take, leb, sub64, add64, get_or-set_self,
  get_or-set_ne, if◌then◌else◌, ◌-◌,
}
use mathlib.Core.Path.{ap₂}
use mathlib.Core.List.{append-nil, append_assoc}
use raincloud.Fs.Pipe.{
  PipeContext, advance, read_loop, write_loop, pipe_read, pipe_write, pipe_open,
}

-- The `n` bytes from offset `h` on, going round at the end of the storage.
abbrev pub window : List ℕ → ℕ → ℕ → List ℕ
window buf h zero = []
window buf h (suc n) = get_or buf h 0 ∷ window buf (advance h) n

abbrev pub contents : PipeContext → List ℕ
contents c = window c.buf c.read_offset c.length

pub record IsPipe (c : PipeContext) : Type 0 where
  pub storage : length c.buf ≡ 4096
  pub read_in : c.read_offset < 4096
  pub fits : c.length ≤ 4096
  pub meets : c.write_offset ≡ (c.read_offset + c.length) % 4096

advance_lem :
    (h k : ℕ) → h < 4096 → (advance h < 4096) × ((h + suc k) % 4096 ≡ (advance h + k) % 4096)
advance_lem h k small = ground arith

pub length-window : (buf : List ℕ) (h n : ℕ) → length (window buf h n) ≡ n
length-window buf h zero = refl
length-window buf h (suc n) = ap suc (length-window buf (advance h) n)

-- A byte written just behind a window extends it.
window-set :
    (buf : List ℕ) (x n h i : ℕ)
    → length buf ≡ 4096
    → h < 4096
    → n < 4096
    → i ≡ (h + n) % 4096
    → window (set buf i x) h (suc n) ≡ window buf h n ++ x ∷ []
window-set buf x zero h i full small room at =
    let here : i ≡ h = omega arith in
    rw here (ap (λ y. y ∷ []) (get_or-set_self buf h x 0 (omega arith)))
window-set buf x (suc n) h i full small room at =
    let (small', shift) = advance_lem h n small in
    ap₂ ◌∷◌ (get_or-set_ne buf x 0 (omega arith))
      (window-set buf x n (advance h) i full small' (omega arith) (at ∙ shift))

pub write_loop-window :
    (xs buf : List ℕ) (h n w : ℕ)
    → length buf ≡ 4096
    → h < 4096
    → n + length xs ≤ 4096
    → w ≡ (h + n) % 4096
    → let (buf', w') = write_loop xs buf w in
      (length buf' ≡ 4096)
      × (w' ≡ (h + n + length xs) % 4096)
      × (window buf' h (n + length xs) ≡ window buf h n ++ xs)
unfolding write_loop
write_loop-window [] buf h n w full small room at = (full, omega arith, rw (append-nil, add-zero))
write_loop-window (x ∷ xs) buf h n w full small room at =
    let next : advance w ≡ (h + suc n) % 4096 = ground arith in
    let (full', w', win) =
      write_loop-window xs (set buf w x) h (suc n) (advance w) (omega (arith, length-set buf w x))
        small (omega arith) next in
    (
      full',
      omega arith,
      (ap (window (write_loop xs (set buf w x) (advance w)).0 h) (omega arith)
          ∙ win
          ∙ ap (λ ys. ys ++ xs) (window-set buf x n h w full small (omega arith) at)
          ∙ append_assoc (window buf h n) (x ∷ []) xs),
    )

-- The loop of `pipe_read` takes a window, and stops behind it.
pub read_loop-window :
    (n : ℕ) (buf : List ℕ) (h : ℕ)
    → h < 4096
    → let (out, h') = read_loop n buf h in (out ≡ window buf h n) × (h' ≡ (h + n) % 4096)
unfolding read_loop
read_loop-window zero buf h small = (refl, omega arith)
read_loop-window (suc n) buf h small =
    let (small', shift) = advance_lem h n small in
    let (out, h') = read_loop-window n buf (advance h) small' in
    (ap (λ ys. get_or buf h 0 ∷ ys) out, h' ∙ sym shift)

pub window-add :
    (buf : List ℕ) (n m h : ℕ)
    → h < 4096
    → window buf h (n + m) ≡ window buf h n ++ window buf ((h + n) % 4096) m
window-add buf zero m h small = ap₂ (λ k i. window buf k i) (omega arith) (omega arith)
window-add buf (suc n) m h small =
    let (small', shift) = advance_lem h n small in
    ap (window buf h) {y = suc (n + m)} (omega arith)
    ∙ ap (λ ys. get_or buf h 0 ∷ ys)
        (window-add buf n m (advance h) small'
          ∙ ap (λ k. window buf (advance h) n ++ window buf k m) (sym shift))

pub pipe_open-IsPipe :
    (storage : List ℕ)
    → length storage ≡ 4096
    → IsPipe (pipe_open storage) × (contents (pipe_open storage) ≡ [])
unfolding pipe_open
pipe_open-IsPipe storage full = (omega arith, refl)

-- `pipe_write` takes as many bytes as fit, appends exactly these to what the pipe holds, and keeps
-- the pipe's invariant.
pub pipe_write-contents :
    (c : PipeContext) (src : List ℕ)
    → IsPipe c
    → length src < 2 ^ 64
    → let (n, c') = pipe_write c src in
      (n ≡ min (length src) (4096 - c.length))
      × IsPipe c'
      × (contents c' ≡ contents c ++ take n src)
unfolding pipe_write
pipe_write-contents c src v word =
    let m = min (length src) (4096 - c.length) in
    let e : (if leb (length src) (sub64 4096 c.length) then length src else sub64 4096 c.length)
        ≡ m =
      ground (arith, v.fits) in
    let len : length (take m src) ≡ m = length-take m src ∙ omega arith in
    let sum : add64 c.length m ≡ c.length + m = omega (arith, v.fits) in
    let (full, w, win) =
      write_loop-window (take m src) c.buf c.read_offset c.length c.write_offset v.storage v.read_in
        (omega (arith, v.fits)) v.meets in
    rw (e, sum)
      (
        refl,
        record {
          storage = full;
          read_in = v.read_in;
          fits = omega (arith, v.fits);
          meets = omega (arith, w);
        },
        ap (window (write_loop (take m src) c.buf c.write_offset).0 c.read_offset) (omega arith)
            ∙ win,
      )

-- `pipe_read` returns as many bytes as were asked or as there are; they are the oldest ones, the
-- others stay in their order, and the pipe's invariant is kept.
pub pipe_read-contents :
    (c : PipeContext) (size : ℕ)
    → IsPipe c
    → let (out, c') = pipe_read c size in
      (length out ≡ min size c.length) × IsPipe c' × (contents c ≡ out ++ contents c')
unfolding pipe_read
pipe_read-contents c size v =
    let m = min size c.length in
    let e : (if leb size c.length then size else c.length) ≡ m = ground arith in
    let rest : sub64 c.length m ≡ c.length - m = omega (arith, v.fits) in
    let (out, h') = read_loop-window m c.buf c.read_offset v.read_in in
    rw (e, rest)
      (
        ap length out ∙ length-window c.buf c.read_offset m,
        record {
          storage = v.storage;
          read_in = omega (arith, h');
          fits = omega (arith, v.fits);
          meets = omega (arith, h', v.meets);
        },
        ap (window c.buf c.read_offset) {y = m + (c.length - m)} (omega arith)
            ∙ window-add c.buf m (c.length - m) c.read_offset v.read_in
            ∙ ap₂ (λ ys k. ys ++ window c.buf k (c.length - m)) (sym out) (sym h'),
      )
