-- ===== src/Devices/Tests.antt =====
-- arch/x86/isa.c and serial_port.c: runs with the answers of a device, and the theorems at them.
use raincloud.Prelude.{ℕ, ◌≡◌, refl, some, List, [], ◌∷◌, ◌++◌, replicate, length-replicate, arith}
use raincloud.Devices.{PortEvent}
use raincloud.Devices.Waits.{written, now, later}
use raincloud.Devices.Isa.{ok, pio_read_sector, command_read_sector}
use raincloud.Devices.Isa.Sectors.{Serves, serves, Addresses, pio_read_sector_lem}
use raincloud.Devices.Serial.{serial_port_write, uart_base}
use raincloud.Devices.Serial.Sent.{Readies, sent_all, ready, serial_port_write_lem}

abbrev words : List ℕ
words = replicate 256 7

-- The drive is busy once, then ready; the status has no error; it is ready at once.
abbrev answers : List ℕ
answers = 0x80 ∷ 0x50 ∷ 0x58 ∷ 0x58 ∷ words ++ []

served : Serves answers (words ++ [])
served =
    serves answers (0x58 ∷ words ++ []) (words ++ []) 0x58
      (later 0x80 (0x50 ∷ 0x58 ∷ 0x58 ∷ words ++ []) (0x58 ∷ 0x58 ∷ words ++ []) (λ e. cc)
        (now 0x50 (0x58 ∷ 0x58 ∷ words ++ []) refl))
      refl (now 0x58 (words ++ []) refl)

pio_read_sector_lem_example :
    (events : List PortEvent) × (pio_read_sector 0x1234567 answers
      ≡ some (record { value = ok words; events = events; left = [] }))
    × Addresses 0x1234567 command_read_sector events
pio_read_sector_lem_example =
    pio_read_sector_lem 0x1234567 answers words [] (omega arith) (length-replicate {A = ℕ} 256 7)
      served

readies : Readies (72 ∷ 105 ∷ []) (0 ∷ 32 ∷ 32 ∷ []) []
readies =
    ready 72 (105 ∷ []) (0 ∷ 32 ∷ 32 ∷ []) (32 ∷ []) []
      (later 0 (32 ∷ 32 ∷ []) (32 ∷ []) (λ e. cc) (now 32 (32 ∷ []) refl))
      (ready 105 [] (32 ∷ []) [] [] (now 32 [] refl) (sent_all []))

serial_port_write_lem_example :
    (events : List PortEvent) × (serial_port_write (some (72 ∷ 105 ∷ [])) (0 ∷ 32 ∷ 32 ∷ [])
      ≡ some (record { value = 2; events = events ++ []; left = [] }))
    × (written uart_base events ≡ 72 ∷ 105 ∷ [])
serial_port_write_lem_example = serial_port_write_lem (72 ∷ 105 ∷ []) (0 ∷ 32 ∷ 32 ∷ []) [] readies
