-- ===== src/Devices/Serial/Sent.antt =====
-- arch/x86/serial_port/serial_port.c: what is sent.
use raincloud.Prelude.{
  ℕ, ◌+◌, ◌%◌, ◌^◌, ◌≡◌, refl, ap, ◌∙◌, true, some, List, [], ◌∷◌, ◌++◌, map, length,
}
use raincloud.Devices.{PortEvent, wrote8, after, ◌>>◌, wait_bit, io_write_8, return_io}
use raincloud.Devices.Waits.{written, written-append, Polls, wait_bit-Polls, bind_ends}
use raincloud.Devices.Serial.{uart_base, lsr_txrdy, lsr_offset, write_bytes, serial_port_write}

-- The device gets ready as many times as there are bytes.
pub data Readies : (bytes answers rest : List ℕ) → Type 0 where
  sent_all : (rest : List ℕ) → Readies [] rest rest
  ready :
      (b : ℕ) (bs answers more rest : List ℕ)
      → Polls true lsr_txrdy answers more
      → Readies bs more rest
      → Readies (b ∷ bs) answers rest

-- Writing that ends: what it did.
pub record Sent (bytes answers rest : List ℕ) : Type 0 where
  pub events : List PortEvent
  pub ends : write_bytes bytes answers ≡ some (record { value = tt; events = events; left = rest })
  pub in_order : written uart_base events ≡ map (λ b. b % 2 ^ 8) bytes

write_bytes-Readies :
    (bytes answers rest : List ℕ) → Readies bytes answers rest → Sent bytes answers rest
unfolding write_bytes
write_bytes-Readies _ _ _ (sent_all rest) = record { events = []; ends = refl; in_order = refl }
write_bytes-Readies _ _ _ (ready b bs answers more rest polls readies) =
    let w = wait_bit-Polls true (uart_base + lsr_offset) lsr_txrdy answers more polls in
    let s = write_bytes-Readies bs more rest readies in
    record {
      events = w.events ++ (wrote8 uart_base (b % 2 ^ 8) ∷ s.events);
      ends =
          bind_ends (wait_bit true (uart_base + lsr_offset) lsr_txrdy)
            (λ _. io_write_8 uart_base b >> write_bytes bs) answers w.ends
          ∙ ap (λ o. after w.events (after (wrote8 uart_base (b % 2 ^ 8) ∷ []) o)) s.ends;
      in_order =
          written-append uart_base w.events (wrote8 uart_base (b % 2 ^ 8) ∷ s.events)
          ∙ rw (w.only_reads uart_base, s.in_order) refl;
    }

-- Where the device gets ready for each byte, writing ends: the bytes of the buffer are written to
-- the port, in order, each once, and their number is returned.
pub serial_port_write_lem :
    (buffer answers rest : List ℕ)
    → Readies buffer answers rest
    → (events : List PortEvent) × (serial_port_write (some buffer) answers
        ≡ some (record { value = length buffer; events = events ++ []; left = rest }))
      × (written uart_base events ≡ map (λ b. b % 2 ^ 8) buffer)
unfolding serial_port_write
serial_port_write_lem buffer answers rest readies =
    let s = write_bytes-Readies buffer answers rest readies in
    (
      s.events,
      bind_ends (write_bytes buffer) (λ _. return_io (length buffer)) answers s.ends,
      s.in_order,
    )
