-- ===== src/Fs/Fat/Chain.antt =====
-- fs/fat.c: a chain that ends is measured and read as it is.
use raincloud.Prelude.{
  ℕ, zero, suc, ◌+◌, ◌-◌, ◌≤◌, ◌<◌, ◌^◌, ◌≡◌, refl, ap, ◌∙◌, true, false, some, List, [], ◌∷◌,
  length, drop, arith, add32, ◌==◌, ltb,
}
use raincloud.Fs.Fat.{
  FatFs, entry, extract_fat_entry, is_end, compute_cluster_chain_length, read_cluster_chain,
  cluster_size,
}

drop-nil : (k : ℕ) → [] ≡ drop {A = ℕ} k []
drop-nil zero = refl
drop-nil (suc k) = refl

suc_eq-zero : (k : ℕ) → (suc k == 0) ≡ false
suc_eq-zero k = ground arith

suc-sub : (k : ℕ) → suc k - 1 ≡ k
suc-sub k = omega arith

module _ (disk : ℕ → ℕ → ℕ) (fs : FatFs) where
  -- The clusters that follow `c`, up to the one whose entry is the mark of the end.
  abbrev pub IsChain : ℕ → List ℕ → Type 0
  IsChain c [] = (e : ℕ) × (extract_fat_entry disk fs c ≡ entry e) × (is_end fs e ≡ true)
  IsChain c (d ∷ ds) =
      (extract_fat_entry disk fs c ≡ entry d) × (is_end fs d ≡ false) × IsChain d ds

  chain_length_from :
      (fuel n c : ℕ) (ds : List ℕ)
      → IsChain c ds
      → length ds < fuel
      → n + length ds + 1 < 2 ^ 32
      → compute_cluster_chain_length disk fuel fs n c ≡ some (n + length ds + 1)
  unfolding compute_cluster_chain_length
  chain_length_from zero n c ds chain enough small = absurd (omega arith)
  chain_length_from (suc fuel) n c [] (e, found, last) enough small =
      rw (compute_cluster_chain_length, found, last) (ap some (omega arith))
  chain_length_from (suc fuel) n c (d ∷ ds) (found, more, chain) enough small =
      rw (compute_cluster_chain_length, found, more)
        (chain_length_from fuel (add32 n 1) d ds chain (omega arith) (omega arith)
          ∙ ap some (omega arith))

  -- On a chain that ends, `compute_cluster_chain_length` counts its clusters.
  pub compute_cluster_chain_length_lem :
      (fuel c : ℕ) (ds : List ℕ)
      → IsChain c ds
      → length ds < fuel
      → length ds + 1 < 2 ^ 32
      → compute_cluster_chain_length disk fuel fs 0 c ≡ some (length (c ∷ ds))
  compute_cluster_chain_length_lem fuel c ds chain enough small =
      chain_length_from fuel 0 c ds chain enough (omega arith) ∙ ap some (omega arith)

  -- The bytes of as many clusters as the list has.
  abbrev pub bytes_of : List ℕ → ℕ
  bytes_of [] = 0
  bytes_of (c ∷ cs) = cluster_size fs + bytes_of cs

  read_all :
      (fuel bufsize n c : ℕ) (ds : List ℕ)
      → IsChain c ds
      → length ds < fuel
      → n + bytes_of (c ∷ ds) ≤ bufsize
      → bufsize < 2 ^ 32
      → read_cluster_chain disk fuel fs bufsize n c 0 ≡ some (c ∷ ds, n + bytes_of (c ∷ ds))
  unfolding read_cluster_chain
  read_all zero bufsize n c ds chain enough fits small = absurd (omega arith)
  read_all (suc fuel) bufsize n c [] (e, found, last) enough fits small =
      let size : add32 n (cluster_size fs) ≡ n + bytes_of (c ∷ []) = omega arith in
      let room : ltb bufsize (n + bytes_of (c ∷ [])) ≡ false = ground arith in
      rw (read_cluster_chain, found, last, size, room) refl
  read_all (suc fuel) bufsize n c (d ∷ ds) (found, more, chain) enough fits small =
      let size : add32 n (cluster_size fs) ≡ n + cluster_size fs = omega arith in
      let room : ltb bufsize (n + cluster_size fs) ≡ false = ground arith in
      let rest =
        read_all fuel bufsize (n + cluster_size fs) d ds chain (omega arith) (omega arith) small in
      rw (read_cluster_chain, found, more, size, room, rest)
        (ap (λ b. some (c ∷ d ∷ ds, b)) (omega arith))

  -- Reading a chain that ends, from the k-th of its clusters on, into a buffer that is long enough
  -- for all of it: exactly those clusters are read, in order, and their size is returned.
  pub read_cluster_chain-drop :
      (k fuel bufsize c : ℕ) (ds : List ℕ)
      → IsChain c ds
      → length ds < fuel
      → bytes_of (c ∷ ds) ≤ bufsize
      → bufsize < 2 ^ 32
      → read_cluster_chain disk fuel fs bufsize 0 c k
        ≡ some (drop k (c ∷ ds), bytes_of (drop k (c ∷ ds)))
  unfolding read_cluster_chain
  read_cluster_chain-drop k zero bufsize c ds chain enough fits small = absurd (omega arith)
  read_cluster_chain-drop zero (suc fuel) bufsize c ds chain enough fits small =
      read_all (suc fuel) bufsize 0 c ds chain enough (omega arith) small
      ∙ ap (λ b. some (c ∷ ds, b)) (omega arith)
  read_cluster_chain-drop (suc k) (suc fuel) bufsize c [] (e, found, last) enough fits small =
      let room : ltb bufsize (add32 0 (cluster_size fs)) ≡ false = ground arith in
      rw (read_cluster_chain, found, last, room, suc_eq-zero k)
        (ap (λ cs. some (cs, bytes_of cs)) (drop-nil k))
  read_cluster_chain-drop (suc k) (suc fuel) bufsize c (d ∷ ds) (found, more, chain) enough fits
        small =
      let room : ltb bufsize (add32 0 (cluster_size fs)) ≡ false = ground arith in
      rw (read_cluster_chain, found, more, room, suc_eq-zero k, suc-sub k)
        (read_cluster_chain-drop k fuel bufsize d ds chain (omega arith) (omega arith) small)
