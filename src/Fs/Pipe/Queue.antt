-- ===== src/Fs/Pipe/Queue.antt =====
-- fs/fs_special.c: no sequence of calls tells a pipe from a bounded queue of bytes.
use Prim.Native.Nat.{min}
use raincloud.Prelude.{
  ℕ, ◌-◌, ◌^◌, ◌<◌, ◌≡◌, refl, sym, ap, ◌∙◌, List, [], ◌∷◌, ◌++◌, length, take, drop,
  take-append_length, drop-append_length,
}
use mathlib.Core.Path.{ap₂}
use raincloud.Fs.Pipe.{PipeContext, pipe_read, pipe_write}
use raincloud.Fs.Pipe.Window.{
  contents, IsPipe, pipe_write-contents, pipe_read-contents, length-window,
}

pub data PipeCall : Type 0 where
  read : ℕ → PipeCall
  write : List ℕ → PipeCall

-- What a caller sees: the bytes read, or the number of bytes taken.
pub data PipeReply : Type 0 where
  got : List ℕ → PipeReply
  took : ℕ → PipeReply

pub run : PipeContext → List PipeCall → List PipeReply
run c [] = []
run c (read n ∷ calls) = let (out, c') = pipe_read c n in got out ∷ run c' calls
run c (write xs ∷ calls) = let (n, c') = pipe_write c xs in took n ∷ run c' calls

-- The queue of at most 4096 bytes, oldest first.
pub queue_run : List ℕ → List PipeCall → List PipeReply
queue_run q [] = []
queue_run q (read n ∷ calls) =
    let m = min n (length q) in got (take m q) ∷ queue_run (drop m q) calls
queue_run q (write xs ∷ calls) =
    let m = min (length xs) (4096 - length q) in took m ∷ queue_run (q ++ take m xs) calls

-- Each caller's buffer has a length that a 64-bit word holds.
abbrev pub AllFit : List PipeCall → Type 0
AllFit [] = Unit {0}
AllFit (read n ∷ calls) = AllFit calls
AllFit (write xs ∷ calls) = (length xs < 2 ^ 64) × AllFit calls

-- Any sequence of reads and writes on a pipe in its invariant gets the replies of the bounded queue
-- that holds the pipe's bytes, where every buffer's length fits a 64-bit word.
pub run_refines :
    (calls : List PipeCall) (c : PipeContext)
    → IsPipe c
    → AllFit calls
    → run c calls ≡ queue_run (contents c) calls
unfolding run queue_run
run_refines [] c v fit = refl
run_refines (read n ∷ calls) c v fit =
    let (len, v', parts) = pipe_read-contents c n v in
    let held : length (contents c) ≡ c.length = length-window c.buf c.read_offset c.length in
    let m : length (pipe_read c n).0 ≡ min n (length (contents c)) = len ∙ ap (min n) (sym held) in
    let front : (pipe_read c n).0 ≡ take (min n (length (contents c))) (contents c) =
      sym (take-append_length (pipe_read c n).0 (contents (pipe_read c n).1))
      ∙ ap₂ take m (sym parts) in
    let back : contents (pipe_read c n).1 ≡ drop (min n (length (contents c))) (contents c) =
      sym (drop-append_length (pipe_read c n).0 (contents (pipe_read c n).1))
      ∙ ap₂ drop m (sym parts) in
    ap₂ (λ out rest. got out ∷ rest) front
      (run_refines calls (pipe_read c n).1 v' fit ∙ ap (λ q. queue_run q calls) back)
run_refines (write xs ∷ calls) c v fit =
    let (num, v', parts) = pipe_write-contents c xs v fit.0 in
    let held : length (contents c) ≡ c.length = length-window c.buf c.read_offset c.length in
    let m : (pipe_write c xs).0 ≡ min (length xs) (4096 - length (contents c)) =
      num ∙ ap (λ k. min (length xs) (4096 - k)) (sym held) in
    ap₂ (λ k rest. took k ∷ rest) m
      (run_refines calls (pipe_write c xs).1 v' fit.1
        ∙ ap (λ q. queue_run q calls) (parts ∙ ap (λ k. contents c ++ take k xs) m))
