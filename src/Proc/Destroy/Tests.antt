-- ===== src/Proc/Destroy/Tests.antt =====
-- proc/proc.c: runs of `proc_destroy`, and the theorem at one.
use raincloud.Prelude.{◌≡◌, refl, none, some, [], ◌==◌, if◌then◌else◌, replicate, arith}
use raincloud.Links.{Links, list_init, list_add_before, list_empty}
use raincloud.Proc.Destroy.{Family, list_of, child_of, unfinished, proc_destroy, proc_destroy_lem}

-- The process at 1000 is a child of the one at 2000 and has a child at 3000.
abbrev links : Links
links = list_add_before (child_of 1000) (list_of 3000) (
    list_init (child_of 1000) (
      list_add_before (child_of 2000) (list_of 1000)
        (list_init (child_of 2000) (record { next = λ p. p; prev = λ p. p }))))

abbrev family : Family
family = record {
  links = links;
  pid = λ p. if p == 1000 then 1 else 2;
  parent = λ p. some 2000;
  tid = λ t. 0;
  owner = λ t. none;
  pid_table = replicate 8 1;
  tid_table = [];
}

runs_on : proc_destroy 50 1000 family ≡ unfinished
unfolding proc_destroy list_add_before list_init
runs_on = refl

proc_destroy_lem_example : proc_destroy 50 1000 family ≡ unfinished
unfolding list_empty list_add_before list_init
proc_destroy_lem_example = proc_destroy_lem 50 1000 2000 family refl (omega arith)
