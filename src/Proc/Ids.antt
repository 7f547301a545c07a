-- ===== src/Proc/Ids.antt =====
-- proc/id.c, and the descriptors of proc/proc.c: tables in which the first free place is taken.
pub mod Tables
use raincloud.Prelude.{
  ℕ, zero, suc, ◌+◌, ◌<◌, Bool, Option, none, some, List, [], ◌∷◌, ltb, ◌==◌, if◌then◌else◌, get_or,
  set, replicate,
}

-- The loop over `n` places from `i` on: the first that holds 0.
unfoldable pub first_zero : ℕ → ℕ → List ℕ → Option ℕ
first_zero zero i table = none
first_zero (suc n) i table =
    let rest = first_zero n (i + 1) table in if get_or table i 1 == 0 then some i else rest

-- The place found is given the mark, and is returned; `none` is -1.
abbrev pub take_place : ℕ → List ℕ → Option ℕ → Option ℕ × List ℕ
take_place mark table none = (none, table)
take_place mark table (some i) = (some i, set table i mark)

abbrev pub max_pid : ℕ
max_pid = 256

abbrev pub max_tid : ℕ
max_tid = 1024

unfoldable pub pid_alloc : List ℕ → Option ℕ × List ℕ
pid_alloc pid_table = take_place 1 pid_table (first_zero max_pid 0 pid_table)

unfoldable pub pid_free : ℕ → List ℕ → List ℕ
pid_free id pid_table = set pid_table id 0

-- The loop's bound is the one of the process identifiers in the source.
pub tid_alloc : List ℕ → Option ℕ × List ℕ
tid_alloc tid_table = take_place 1 tid_table (first_zero max_pid 0 tid_table)

unfoldable pub tid_free : ℕ → List ℕ → List ℕ
tid_free id tid_table = set tid_table id 0

-- The tables of `id_init`.
pub id_init : List ℕ × List ℕ
id_init = (replicate max_pid 0, replicate max_tid 0)

abbrev pub fd_table_size : ℕ
fd_table_size = 256

-- A failed `assert` halts the machine.
pub data Checked (A : Type 0) : Type 0 where
  passed : A → Checked A
  assert_failed : Checked A

-- The table holds pointers; `ptr` is not NULL.
pub fd_alloc : ℕ → List ℕ → Checked (Option ℕ × List ℕ)
fd_alloc ptr fd_table =
    if ptr == 0
    then assert_failed
    else passed (take_place ptr fd_table (first_zero fd_table_size 0 fd_table))

-- A descriptor is the 32-bit pattern of an `int`, so that a negative one is not below 256.
pub fd_free : ℕ → List ℕ → Checked (List ℕ)
fd_free fd fd_table = if ltb fd fd_table_size then passed (set fd_table fd 0) else assert_failed

pub get_fd_ptr : ℕ → List ℕ → Checked ℕ
get_fd_ptr fd fd_table =
    if ltb fd fd_table_size then passed (get_or fd_table fd 0) else assert_failed
