-- ===== src/Devices/Isa/Sectors.antt =====
-- arch/x86/isa.c: a sector read or written is the one of the address, and its words are those of
-- the data port.
use raincloud.Prelude.{
  ℕ, ◌+◌, ◌*◌, ◌/◌, ◌%◌, ◌^◌, ◌<◌, ◌≡◌, refl, ap, ◌∙◌, true, false, some, List, [], ◌∷◌, ◌++◌, ◌==◌,
  map, length, arith, lt→ltb,
}
use mathlib.Core.List.{append-nil}
use mathlib.Core.Path.{subst}
use raincloud.Devices.{
  PortEvent, wrote8, wrote16, read8, read16, Run, Io, after, ◌>>=◌, wait_bit, bit_of, io_read_8,
  return_io,
}
use raincloud.Devices.Waits.{written, written-append, Polls, Waited, wait_bit-Polls, bind_ends}
use raincloud.Devices.Isa.{
  set_registers, move_data, address_sector, read_words, write_words, transfer, pio_read_sector,
  pio_write_sector, ok, reg_data, reg_features, reg_sector_count, reg_sector_number,
  reg_cylinder_low, reg_cylinder_high, reg_drive_head, reg_status_command, status_bsy, status_err,
  command_read_sector, command_write_sector,
}

-- The registers written for a command.
abbrev pub commands : (lba command : ℕ) → List PortEvent
commands lba command =
    wrote8 reg_features 0
    ∷ wrote8 reg_sector_count 1
    ∷ wrote8 reg_sector_number (lba % 2 ^ 8)
    ∷ wrote8 reg_cylinder_low (lba / 2 ^ 8 % 2 ^ 8)
    ∷ wrote8 reg_cylinder_high (lba / 2 ^ 16 % 2 ^ 8)
    ∷ wrote8 reg_drive_head ((lba / 2 ^ 24 + 2 ^ 6) % 2 ^ 8)
    ∷ wrote8 reg_status_command (command % 2 ^ 8)
    ∷ []

-- What the device does during a command: it answers the status until it is not busy, then one
-- status without an error, and the status again until it is not busy.
pub data Serves : (answers rest : List ℕ) → Type 0 where
  serves :
      (answers more rest : List ℕ) (status : ℕ)
      → Polls false status_bsy answers (status ∷ more)
      → bit_of status status_err ≡ false
      → Polls false status_bsy more rest
      → Serves answers rest

-- The drive is given the address in four registers, in the mode in which they are an address, and
-- a command for one sector, once each.
pub record Addresses (lba command : ℕ) (events : List PortEvent) : Type 0 where
  pub number : ℕ
  pub low : ℕ
  pub high : ℕ
  pub head : ℕ
  pub count_is : written reg_sector_count events ≡ 1 ∷ []
  pub number_is : written reg_sector_number events ≡ number ∷ []
  pub low_is : written reg_cylinder_low events ≡ low ∷ []
  pub high_is : written reg_cylinder_high events ≡ high ∷ []
  pub head_is : written reg_drive_head events ≡ head ∷ []
  pub command_is : written reg_status_command events ≡ command ∷ []
  pub address : number + low * 2 ^ 8 + high * 2 ^ 16 + head % 2 ^ 4 * 2 ^ 24 ≡ lba
  pub mode : bit_of head 6 ≡ true

address_sector-Polls :
    (lba command : ℕ) (answers rest : List ℕ)
    → Polls false status_bsy answers rest
    → (w : Waited false reg_status_command status_bsy answers rest) × (address_sector lba command
          answers
        ≡ some (record { value = tt; events = w.events ++ commands lba command; left = rest }))
unfolding address_sector
address_sector-Polls lba command answers rest polls =
    let w = wait_bit-Polls false reg_status_command status_bsy answers rest polls in
    (
      w,
      bind_ends (wait_bit false reg_status_command status_bsy) (λ _. set_registers lba command)
          answers w.ends,
    )

-- What is read or written of a sector goes by the data port alone.
pub record Moved (A : Type 0) (move : Io A) (rest : List ℕ) (r : Run A) : Type 0 where
  pub ends : move rest ≡ some r
  pub data_only : (p : ℕ) → (reg_data == p) ≡ false → written p r.events ≡ []

module _ {A : Type 0} (move : Io A) (lba command : ℕ) (small : lba < 2 ^ 28) (r : Run A) where
  transfer-Serves :
      (answers rest : List ℕ)
      → Serves answers rest
      → Moved A move rest r
      → (events : List PortEvent) × (transfer lba command move answers
          ≡ some (record { value = ok r.value; events = events; left = r.left }))
        × ((p : ℕ) → written p events ≡ written p (commands lba command) ++ written p r.events)
  transfer-Serves _ _ (serves answers more rest status first fine second) moved =
      let (w, addressed) = address_sector-Polls lba command answers (status ∷ more) first in
      let v = wait_bit-Polls false reg_status_command status_bsy more rest second in
      let tail = v.events ++ (r.events ++ []) in
      let moves : move_data move status more
          ≡ some (record { value = ok r.value; events = tail; left = r.left }) =
        rw fine (
          bind_ends (wait_bit false reg_status_command status_bsy)
            (λ _. move >>= λ a. return_io (ok a)) more v.ends
          ∙ ap (after v.events) (bind_ends move (λ a. return_io (ok a)) rest moved.ends)) in
      let start = w.events ++ commands lba command in
      (
        start ++ (read8 reg_status_command status ∷ tail),
        rw (lt→ltb lba (2 ^ 28) small) (
            bind_ends (address_sector lba command)
              (λ _. io_read_8 reg_status_command >>= move_data move) answers addressed
            ∙ ap (λ o. after start (after (read8 reg_status_command status ∷ []) o)) moves),
        λ p.
            written-append p start (read8 reg_status_command status ∷ tail)
            ∙ rw
                (
                  written-append p w.events (commands lba command),
                  w.only_reads p,
                  written-append p v.events (r.events ++ []),
                  v.only_reads p,
                  append-nil r.events,
                )
                refl,
      )

-- The registers of a command are those of its address.
registers :
    (lba command : ℕ) (events moved : List PortEvent)
    → lba < 2 ^ 28
    → command < 2 ^ 8
    → ((p : ℕ) → written p events ≡ written p (commands lba command) ++ written p moved)
    → ((p : ℕ) → (reg_data == p) ≡ false → written p moved ≡ [])
    → Addresses lba command events
registers lba command events moved small byte all quiet = record {
  number = lba % 2 ^ 8;
  low = lba / 2 ^ 8 % 2 ^ 8;
  high = lba / 2 ^ 16 % 2 ^ 8;
  head = (lba / 2 ^ 24 + 2 ^ 6) % 2 ^ 8;
  count_is = all reg_sector_count ∙ rw (quiet reg_sector_count refl) refl;
  number_is = all reg_sector_number ∙ rw (quiet reg_sector_number refl) refl;
  low_is = all reg_cylinder_low ∙ rw (quiet reg_cylinder_low refl) refl;
  high_is = all reg_cylinder_high ∙ rw (quiet reg_cylinder_high refl) refl;
  head_is = all reg_drive_head ∙ rw (quiet reg_drive_head refl) refl;
  command_is =
      all reg_status_command ∙ rw (quiet reg_status_command refl) (ap (λ c. c ∷ []) (omega arith));
  address = omega arith;
  mode = ground arith;
}

read_words-append :
    (words rest : List ℕ)
    → read_words (length words) (words ++ rest)
      ≡ some (record { value = words; events = map (read16 reg_data) words; left = rest })
unfolding read_words
read_words-append [] rest = refl
read_words-append (w ∷ words) rest =
    ap (after (read16 reg_data w ∷ [])) (
      bind_ends (read_words (length words)) (λ ws. return_io (w ∷ ws)) (words ++ rest)
        (read_words-append words rest))
    ∙ ap (λ es. some (record { value = w ∷ words; events = read16 reg_data w ∷ es; left = rest }))
        (append-nil (map (read16 reg_data) words))

reads_quiet : (p : ℕ) (words : List ℕ) → written p (map (read16 reg_data) words) ≡ []
reads_quiet p [] = refl
reads_quiet p (w ∷ words) = reads_quiet p words

-- Reading a sector whose address has 28 bits, from a drive that serves the command: the drive is
-- given the address and one command to read, and the 256 words that it answers are the result.
pub pio_read_sector_lem :
    (lba : ℕ) (answers words rest : List ℕ)
    → lba < 2 ^ 28
    → length words ≡ 256
    → Serves answers (words ++ rest)
    → (events : List PortEvent) × (pio_read_sector lba answers
        ≡ some (record { value = ok words; events = events; left = rest }))
      × Addresses lba command_read_sector events
unfolding pio_read_sector
pio_read_sector_lem lba answers words rest small count served =
    let moved : Moved (List ℕ) (read_words 256) (words ++ rest)
        (record { value = words; events = map (read16 reg_data) words; left = rest }) =
      record {
        ends =
            subst
              (λ n.
                read_words n (words ++ rest)
                ≡ some
                    (record { value = words; events = map (read16 reg_data) words; left = rest }))
              count (read_words-append words rest);
        data_only = λ p other. reads_quiet p words;
      } in
    let (events, ends, all) =
      transfer-Serves (read_words 256) lba command_read_sector small _ answers (words ++ rest)
        served moved in
    (
      events,
      ends,
      registers lba command_read_sector events (map (read16 reg_data) words) small (omega arith) all
          moved.data_only,
    )

write_words-ends :
    (words rest : List ℕ)
    → write_words words rest
      ≡ some (record {
        value = tt;
        events = map (λ w. wrote16 reg_data (w % 2 ^ 16)) words;
        left = rest;
      })
unfolding write_words
write_words-ends [] rest = refl
write_words-ends (w ∷ words) rest =
    ap (after (wrote16 reg_data (w % 2 ^ 16) ∷ [])) (write_words-ends words rest)

writes_data :
    (words : List ℕ)
    → written reg_data (map (λ w. wrote16 reg_data (w % 2 ^ 16)) words)
      ≡ map (λ w. w % 2 ^ 16) words
writes_data [] = refl
writes_data (w ∷ words) = ap (λ ws. (w % 2 ^ 16) ∷ ws) (writes_data words)

writes_only :
    (p : ℕ) (words : List ℕ)
    → (reg_data == p) ≡ false
    → written p (map (λ w. wrote16 reg_data (w % 2 ^ 16)) words) ≡ []
writes_only p [] other = refl
writes_only p (w ∷ words) other = rw other (writes_only p words other)

-- Writing a sector, likewise: the drive is given the address, one command to write, and the words
-- of the buffer by the data port, in order.
pio_write_sector_lem :
    (buf : List ℕ) (lba : ℕ) (answers rest : List ℕ)
    → lba < 2 ^ 28
    → Serves answers rest
    → (events : List PortEvent) × (pio_write_sector buf lba answers
        ≡ some (record { value = ok tt; events = events; left = rest }))
      × Addresses lba command_write_sector events
      × (written reg_data events ≡ map (λ w. w % 2 ^ 16) buf)
unfolding pio_write_sector
pio_write_sector_lem buf lba answers rest small served =
    let moved : Moved (Unit {0}) (write_words buf) rest (record {
      value = tt;
      events = map (λ w. wrote16 reg_data (w % 2 ^ 16)) buf;
      left = rest;
    }) =
      record { ends = write_words-ends buf rest; data_only = λ p other. writes_only p buf other } in
    let (events, ends, all) =
      transfer-Serves (write_words buf) lba command_write_sector small _ answers rest served
        moved in
    (
      events,
      ends,
      registers lba command_write_sector events (map (λ w. wrote16 reg_data (w % 2 ^ 16)) buf) small
          (omega arith) all moved.data_only,
      all reg_data ∙ writes_data buf,
    )
