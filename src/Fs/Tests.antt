-- ===== src/Fs/Tests.antt =====
-- fs/: runs on small files and pipes, and the theorems at them.
use raincloud.Prelude.{
  ◌<◌, ◌/◌, ◌%◌, ◌==◌, ◌||◌, if◌then◌else◌, ◌⊎◌, some, drop, ℕ, ◌+◌, ◌≡◌, refl, List, [], ◌∷◌,
  length, replicate, length-replicate, arith,
}
use raincloud.Fs.Fat.{
  FatFs, fat12, fat16, entry, overrun, extract_fat_entry, compute_fat_for_cluster,
  read_cluster_chain,
}
use raincloud.Fs.Fat.Chain.{IsChain, bytes_of, read_cluster_chain-drop}
use raincloud.Fs.Fat.Entries.{table_entry, extract_fat_entry_lem}
use raincloud.Fs.FatFile.{FatContext}
use raincloud.Fs.Pipe.{PipeContext, pipe_open}
use raincloud.Fs.Pipe.Window.{IsPipe, contents, pipe_open-IsPipe}
use raincloud.Fs.Pipe.Queue.{PipeCall, read, write, run, queue_run, run_refines}

abbrev file : FatContext
file = record { file_size = 100; offset = 95 }

abbrev sought : FatContext
sought = record { file_size = 100; offset = 103 }

abbrev storage : List ℕ
storage = replicate 4096 0

storage_size : length storage ≡ 4096
storage_size = length-replicate {A = ℕ} 4096 0

opened-IsPipe : IsPipe (pipe_open storage)
opened-IsPipe = (pipe_open-IsPipe storage storage_size).0

-- A pipe with three bytes, two of them at the end of the storage.
abbrev three : PipeContext
three = record { buf = storage; write_offset = 1; read_offset = 4094; length = 3 }

three-IsPipe : IsPipe three
three-IsPipe = record {
  storage = storage_size;
  read_in = omega arith;
  fits = omega arith;
  meets = refl;
}

abbrev calls : List PipeCall
calls = write (7 ∷ 8 ∷ []) ∷ read 1 ∷ write (9 ∷ []) ∷ read 5 ∷ []

run_refines_example : run three calls ≡ queue_run (contents three) calls
run_refines_example = run_refines calls three three-IsPipe (omega arith, (omega arith, tt))

-- A table of 16-bit entries: cluster 2 leads to 3, which is the last one.
abbrev disk : ℕ → ℕ → ℕ
disk sector off = if off == 4 then 3 else if off == 6 || off == 7 then 255 else 0

abbrev fs : FatFs
fs = record {
  type = fat16;
  lba_start = 2048;
  root_dir_secs = 32;
  fat_secs = 8;
  data_secs = 65000;
  tot_secs = 65049;
  count_of_clus = 16250;
  first_root_sec = 17;
  first_fat_sec = 1;
  first_data_sec = 49;
  byts_per_sec = 512;
  sec_per_clus = 4;
  root_clus = 0;
}

disk-byte : (s o : ℕ) → disk s o < 256
disk-byte s o = ground arith

extract_fat_entry_lem_example :
    (extract_fat_entry disk fs 2 ≡ entry (table_entry disk fat16 fs 2))
    ⊎ ((extract_fat_entry disk fs 2 ≡ overrun) × (fat16 ≡ fat12) × ((2 + 2 / 2) % 512 ≡ 511))
extract_fat_entry_lem_example = extract_fat_entry_lem disk fs 2 disk-byte refl (omega arith)

two_clusters : IsChain disk fs 2 (3 ∷ [])
unfolding extract_fat_entry compute_fat_for_cluster
two_clusters = (refl, refl, (0xffff, refl, refl))

read_cluster_chain-drop_example :
    read_cluster_chain disk 9 fs 4096 0 2 1
    ≡ some (drop 1 (2 ∷ 3 ∷ []), bytes_of disk fs (drop 1 (2 ∷ 3 ∷ [])))
read_cluster_chain-drop_example =
    read_cluster_chain-drop disk fs 1 9 4096 2 (3 ∷ []) two_clusters (omega arith) (omega arith)
      (omega arith)
