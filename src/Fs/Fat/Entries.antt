-- ===== src/Fs/Fat/Entries.antt =====
-- fs/fat.c: which bytes of the table an entry is.
use raincloud.Prelude.{
  ℕ, ◌+◌, ◌*◌, ◌<◌, ◌^◌, ◌≡◌, ◌≢◌, refl, ap, sym, ◌∙◌, true, arith, add32, mul32, ◌==◌, ltb, ◌%◌,
  ◌/◌, if◌then◌else◌, ==_iff, Bool-cases, inl, inr, ◌⊎◌,
}
use raincloud.Fs.Fat.{
  FatFs, FatType, fat12, fat16, fat32, entry, overrun, extract_fat_entry, compute_fat_for_cluster,
}

module _ (disk : ℕ → ℕ → ℕ) where
  -- Byte `i` of the first table on the disk.
  abbrev pub table_byte : FatFs → ℕ → ℕ
  table_byte fs i = disk (add32 (add32 fs.first_fat_sec (i / 512)) fs.lba_start) (i % 512)

  -- The entry of a cluster, by the layout of the tables: little endian, of 16 bits, of 32 bits
  -- with the upper four ignored, or of 12 bits, of which two share three bytes.
  abbrev pub table_entry : FatType → FatFs → ℕ → ℕ
  table_entry fat12 fs c =
      let b = 3 * (c / 2) in
      if c % 2 == 1
      then table_byte fs (b + 1) / 16 + table_byte fs (b + 2) * 16
      else table_byte fs b + table_byte fs (b + 1) % 16 * 256
  table_entry fat16 fs c = table_byte fs (2 * c) + table_byte fs (2 * c + 1) * 256
  table_entry fat32 fs c =
      (table_byte fs (4 * c)
        + table_byte fs (4 * c + 1) * 256
        + table_byte fs (4 * c + 2) * 2 ^ 16
        + table_byte fs (4 * c + 3) * 2 ^ 24)
      % 2 ^ 28

  -- The sector of the table that byte `at` is in.
  abbrev sector : FatFs → ℕ → ℕ
  sector fs at =
      add32 (add32 (add32 fs.first_fat_sec (at / 512)) (mul32 0 fs.fat_secs)) fs.lba_start

  byte_in_sector :
      (fs : FatFs) (at k : ℕ)
      → at % 512 + k < 512
      → disk (sector fs at) (at % 512 + k) ≡ table_byte fs (at + k)
  byte_in_sector fs at k fits =
      let same : (at + k) / 512 ≡ at / 512 = omega arith in
      let off : (at + k) % 512 ≡ at % 512 + k = omega arith in
      let none_added : sector fs at ≡ add32 (add32 fs.first_fat_sec (at / 512)) fs.lba_start =
        ap (λ n. add32 n fs.lba_start) (omega arith) in
      rw (same, off, none_added) refl

  first_byte : (fs : FatFs) (at : ℕ) → disk (sector fs at) (at % 512) ≡ table_byte fs at
  first_byte fs at =
      let none_added : sector fs at ≡ add32 (add32 fs.first_fat_sec (at / 512)) fs.lba_start =
        ap (λ n. add32 n fs.lba_start) (omega arith) in
      ap (λ s. disk s (at % 512)) none_added

  extract-fat16 :
      (fs : FatFs) (c : ℕ)
      → fs.type ≡ fat16
      → fs.byts_per_sec ≡ 512
      → c < 2 ^ 28
      → extract_fat_entry disk fs c ≡ entry (table_entry fat16 fs c)
  unfolding extract_fat_entry compute_fat_for_cluster
  extract-fat16 fs c kind bytes small =
      let at : mul32 c 2 ≡ 2 * c = omega arith in
      let low : ltb (2 * c % 512) 512 ≡ true = ground arith in
      let fits : ltb (2 * c % 512 + 1) 512 ≡ true = ground arith in
      rw
        (
          kind,
          bytes,
          at,
          low,
          fits,
          first_byte fs (2 * c),
          byte_in_sector fs (2 * c) 1 (omega arith),
        )
        refl

  extract-fat32 :
      (fs : FatFs) (c : ℕ)
      → fs.type ≡ fat32
      → fs.byts_per_sec ≡ 512
      → c < 2 ^ 28
      → extract_fat_entry disk fs c ≡ entry (table_entry fat32 fs c)
  unfolding extract_fat_entry compute_fat_for_cluster
  extract-fat32 fs c kind bytes small =
      let o = 4 * c in
      let at : mul32 c 4 ≡ o = omega arith in
      let low : ltb (o % 512) 512 ≡ true = ground arith in
      let fits : ltb (o % 512 + 3) 512 ≡ true = ground arith in
      let third : o % 512 + 2 + 1 ≡ o % 512 + 3 = omega arith in
      rw
        (
          kind,
          bytes,
          at,
          low,
          fits,
          third,
          first_byte fs o,
          byte_in_sector fs o 1 (omega arith),
          byte_in_sector fs o 2 (omega arith),
          byte_in_sector fs o 3 (omega arith),
        )
        (ap (λ v. entry (v % 2 ^ 28)) (omega arith))

  extract-fat12 :
      (fs : FatFs) (c : ℕ)
      → fs.type ≡ fat12
      → fs.byts_per_sec ≡ 512
      → c < 2 ^ 28
      → (c + c / 2) % 512 ≢ 511
      → ((s o : ℕ) → disk s o < 256)
      → extract_fat_entry disk fs c ≡ entry (table_entry fat12 fs c)
  unfolding extract_fat_entry compute_fat_for_cluster
  extract-fat12 fs c kind bytes small inside is_byte =
      let o = c + c / 2 in
      let at : add32 c (c / 2) ≡ o = omega arith in
      let low : ltb (o % 512) 512 ≡ true = ground arith in
      let fits : ltb (o % 512 + 1) 512 ≡ true = ground arith in
      let b0 : table_byte fs o < 256 = is_byte _ _ in
      let b1 : table_byte fs (o + 1) < 256 = is_byte _ _ in
      elim (Bool-cases (c % 2 == 1)) [
        | inl odd ↦
            let place : o ≡ 3 * (c / 2) + 1 = ground arith in
            let next : o + 1 ≡ 3 * (c / 2) + 2 = ground arith in
            rw
              (
                kind,
                bytes,
                at,
                low,
                fits,
                first_byte fs o,
                byte_in_sector fs o 1 (omega arith),
                odd,
              )
              (ap entry (rw (← place, ← next) (omega arith)))
        | inr even ↦
            let place : o ≡ 3 * (c / 2) = ground arith in
            rw
              (
                kind,
                bytes,
                at,
                low,
                fits,
                first_byte fs o,
                byte_in_sector fs o 1 (omega arith),
                even,
              )
              (ap entry (rw (← place) (omega arith)))
      ]

  extract-overrun :
      (fs : FatFs) (c : ℕ)
      → fs.type ≡ fat12
      → fs.byts_per_sec ≡ 512
      → c < 2 ^ 28
      → (c + c / 2) % 512 ≡ 511
      → extract_fat_entry disk fs c ≡ overrun
  unfolding extract_fat_entry compute_fat_for_cluster
  extract-overrun fs c kind bytes small last =
      let at : add32 c (c / 2) ≡ c + c / 2 = omega arith in rw (kind, bytes, at, last) refl

  FatType-cases : (t : FatType) → (t ≡ fat12) ⊎ ((t ≡ fat16) ⊎ (t ≡ fat32))
  FatType-cases fat12 = inl refl
  FatType-cases fat16 = inr (inl refl)
  FatType-cases fat32 = inr (inr refl)

  -- With sectors of 512 bytes, `extract_fat_entry` gives the entry that the layout of the table's
  -- type puts at the cluster, but for the entries of 12 bits that begin in the last byte of a
  -- sector: there the read passes the end of the buffer.
  pub extract_fat_entry_lem :
      (fs : FatFs) (c : ℕ)
      → ((s o : ℕ) → disk s o < 256)
      → fs.byts_per_sec ≡ 512
      → c < 2 ^ 28
      → (extract_fat_entry disk fs c ≡ entry (table_entry fs.type fs c))
        ⊎ ((extract_fat_entry disk fs c ≡ overrun) × (fs.type ≡ fat12) × ((c + c / 2) % 512 ≡ 511))
  extract_fat_entry_lem fs c is_byte bytes small = elim (FatType-cases fs.type) [
    | inl twelve ↦ elim (Bool-cases ((c + c / 2) % 512 == 511)) [
      | inl last ↦
          let at_end = (==_iff _ _).0 last in
          inr (extract-overrun fs c twelve bytes small at_end, twelve, at_end)
      | inr inside ↦
          inl (extract-fat12 fs c twelve bytes small (ground arith) is_byte ∙ by_type twelve)
    ]
    | inr (inl sixteen) ↦ inl (extract-fat16 fs c sixteen bytes small ∙ by_type sixteen)
    | inr (inr more) ↦ inl (extract-fat32 fs c more bytes small ∙ by_type more)
  ]
    where
      by_type :
          {t : FatType}
          → fs.type ≡ t
          → entry (table_entry t fs c) ≡ entry (table_entry fs.type fs c)
      by_type e = ap (λ t. entry (table_entry t fs c)) (sym e)
