-- ===== src/Fs/Fat/Directory/Listing.antt =====
-- fs/fat.c: what the reads of a directory give, one after the other, and which file is found.
use raincloud.Prelude.{
  ℕ, zero, suc, ◌+◌, ◌-◌, ◌*◌, ◌/◌, ◌<◌, ◌≤◌, ◌^◌, ◌≡◌, refl, ap, ◌∙◌, true, false, ◌⊎◌, inl, inr,
  none, some, List, [], ◌∷◌, leb, ltb, if◌then◌else◌, length, arith, sub32, Bool-cases,
}
use raincloud.Fs.Tree.{Text, same_text}
use raincloud.Fs.Fat.Names.Both.{StoredName, HoldsName, text_of, read_name-text, read_name_free}
use raincloud.Fs.Fat.Directory.{
  Outcome, ok, refused, FatFile, FatDir, file_at, behind, fatfs_readdir, find_entry, search_files,
  next_file, name_at, check_name,
}

-- A file of a directory: the entries before its own, its name as it is stored and as it is read.
pub record Item : Type 0 where
  pub before : ℕ
  pub stored : StoredName
  pub name : List ℕ

-- How much of a directory an item takes.
abbrev pub item_size : Item → ℕ
item_size item = 32 * item.before + 32

-- The items stand in the directory from `offset` on, one behind the other, up to a free entry or
-- the end.
abbrev pub HoldsItems : FatDir → (offset : ℕ) → List Item → Type 0
HoldsItems dir offset [] = (dir.size ≤ offset) ⊎ (dir.mem (dir.buf + offset) ≡ 0)
HoldsItems dir offset (item ∷ items) =
    HoldsName dir.mem (dir.buf + offset) item.before item.stored
    × (text_of item.stored ≡ some item.name)
    × (length item.name < 256)
    × (offset + item_size item ≤ dir.size)
    × HoldsItems dir (offset + item_size item) items

-- The file that an item at `offset` is of: the fields are those of its own entry.
abbrev pub item_file : FatDir → (offset : ℕ) → Item → FatFile
item_file dir offset item = file_at dir.mem (dir.buf + (offset + 32 * item.before)) item.name

-- The files of the items.
abbrev pub files_of : FatDir → (offset : ℕ) → List Item → List FatFile
files_of dir offset [] = []
files_of dir offset (item ∷ items) =
    item_file dir offset item ∷ files_of dir (offset + item_size item) items

-- The first file of a name, or -1.
abbrev pub first_named : Text → List FatFile → Outcome FatFile
first_named name [] = refused
first_named name (f ∷ fs) = if same_text f.name name then ok f else first_named name fs

-- The entry of the first item that has the name; the position is the one behind it.
abbrev pub position_of : FatDir → (dir_name : Text) → (pos : ℕ) → List Item → Outcome ℕ
position_of dir dir_name pos [] = refused
position_of dir dir_name pos (item ∷ items) =
    if leb dir.size (pos + item_size item)
    then refused
    else if same_text item.name dir_name
    then ok (pos + item_size item)
    else position_of dir dir_name (pos + item_size item) items

abbrev pub moved : FatDir → ℕ → FatDir
moved dir offset = record dir { offset = offset }

behind-item :
    (offset n size : ℕ)
    → offset + (32 * n + 32) ≤ size
    → size < 2 ^ 32
    → behind offset n ≡ offset + (32 * n + 32)
behind-item offset n size fits small = omega arith

module _ (raw : List ℕ) (dir : FatDir) (small : dir.size < 2 ^ 32) where
  -- A name is read where an item stands.
  pub name_at-HoldsItems :
      (capacity offset : ℕ) (item : Item) (items : List Item)
      → HoldsItems dir offset (item ∷ items)
      → 256 ≤ capacity
      → name_at raw dir capacity offset ≡ ok (item.before, item.name)
  name_at-HoldsItems capacity offset item items (holds, text, short, fits, more) room =
      let limit : item.before ≤ sub32 dir.size offset / 32 = omega arith in
      let read =
        read_name-text dir.mem raw (dir.buf + offset) (sub32 dir.size offset / 32) item.before
          item.stored item.name holds limit text in
      let long_enough : ltb (length item.name) capacity ≡ true = ground arith in
      ap (check_name capacity) read ∙ rw long_enough refl

  pub readdir_item :
      (offset : ℕ) (item : Item) (items : List Item)
      → HoldsItems dir offset (item ∷ items)
      → fatfs_readdir raw (moved dir offset)
        ≡ ok (some (item_file dir offset item), moved dir (offset + item_size item))
  unfolding fatfs_readdir
  readdir_item offset item items holds =
      let inside : leb dir.size offset ≡ false = ground (arith, holds.3) in
      let next = behind-item offset item.before dir.size holds.3 small in
      let own : behind offset item.before - 32 ≡ offset + 32 * item.before = omega (arith, next) in
      rw inside (
        ap (next_file raw (moved dir offset))
          (name_at-HoldsItems 256 offset item items holds (omega arith))
        ∙ ap
            (λ k. ok (
              some (file_at dir.mem (dir.buf + k) item.name),
              moved dir (behind offset item.before),
            ))
            own
        ∙ ap (λ k. ok (some (item_file dir offset item), moved dir k)) next)

  pub readdir_end :
      (offset : ℕ)
      → HoldsItems dir offset []
      → fatfs_readdir raw (moved dir offset) ≡ ok (none, moved dir offset)
  unfolding fatfs_readdir
  readdir_end offset (inl beyond) =
      let out : leb dir.size offset ≡ true = ground arith in rw out refl
  readdir_end offset (inr free) = elim (Bool-cases (leb dir.size offset)) [
    | inl out ↦ rw out refl
    | inr inside ↦ rw inside (
        ap (λ r. next_file raw (moved dir offset) (check_name 256 r))
          (read_name_free dir.mem raw (dir.buf + offset) (sub32 dir.size offset / 32) free))
  ]

  -- Enough fuel is a round for each entry that a directory has room for.
  pub search_items :
      (fuel offset : ℕ) (items : List Item) (file_name : Text)
      → HoldsItems dir offset items
      → offset ≤ dir.size
      → dir.size < offset + 32 * fuel
      → search_files raw fuel (moved dir offset) file_name
        ≡ first_named file_name (files_of dir offset items)
  unfolding search_files
  search_items zero offset items file_name holds inside enough = absurd (omega arith)
  search_items (suc fuel) offset [] file_name holds inside enough =
      rw (readdir_end offset holds) refl
  search_items (suc fuel) offset (item ∷ items) file_name holds inside enough =
      rw
        (
          readdir_item offset item items holds,
          search_items fuel (offset + item_size item) items file_name holds.4 holds.3 (omega arith),
        )
        refl

  -- A name that is not among the items of a directory is looked for up to its end, and one that is
  -- among them is found, unless its entry is the last that the directory has room for.
  pub find_entry_lem :
      (fuel pos : ℕ) (items : List Item) (dir_name : Text)
      → HoldsItems dir pos items
      → pos < dir.size
      → dir.size < pos + 32 * fuel
      → find_entry raw fuel dir dir_name pos ≡ position_of dir dir_name pos items
  unfolding find_entry
  find_entry_lem zero pos items dir_name holds inside enough = absurd (omega arith)
  find_entry_lem (suc fuel) pos [] dir_name (inl out) inside enough = absurd (omega arith)
  find_entry_lem (suc fuel) pos [] dir_name (inr free) inside enough =
      rw (read_name_free dir.mem raw (dir.buf + pos) (sub32 dir.size pos / 32) free) refl
  find_entry_lem (suc fuel) pos (item ∷ items) dir_name holds inside enough =
      let next = behind-item pos item.before dir.size holds.3 small in
      rw (name_at-HoldsItems 512 pos item items holds (omega arith), next)
        (elim (Bool-cases (leb dir.size (pos + item_size item))) [
          | inl full ↦ rw full refl
          | inr room ↦
              let later =
                find_entry_lem fuel (pos + item_size item) items dir_name holds.4 (ground arith)
                  (omega arith) in
              rw (room, later) refl
        ])
