-- ===== src/Devices/Serial.antt =====
-- arch/x86/serial_port/serial_port.c: setting up the port, writing, reading and polling.
pub mod Sent
use raincloud.Prelude.{
  ℕ, zero, suc, ◌+◌, ◌*◌, ◌^◌, ◌/◌, ◌%◌, ◌≡◌, refl, ap, ◌∙◌, Bool, true, false, Option, none, some,
  List, [], ◌∷◌, ◌++◌, ◌==◌, if◌then◌else◌, length, arith, Bool-cases, inl, inr,
}
use raincloud.Devices.{
  PortEvent, wrote8, wrote16, read8, read16, Run, Io, return_io, after, ◌>>=◌, ◌>>◌, io_write_8,
  io_read_8, bit_of, wait_bit,
}

-- `gUartBase` and the offsets of the registers.
abbrev pub uart_base : ℕ
uart_base = 0x3f8

abbrev pub lcr_offset : ℕ
lcr_offset = 3

abbrev pub lsr_offset : ℕ
lsr_offset = 5

abbrev pub lsr_txrdy : ℕ
lsr_txrdy = 5

abbrev pub lsr_rxda : ℕ
lsr_rxda = 0

-- The format of 8 data bits, `gStop << 2` and no parity, with the divisor of 115200 / `gBps`.
unfoldable pub serial_port_init : Io ℕ
serial_port_init = do
  io_write_8 (uart_base + lcr_offset) (1 * 2 ^ 7 + 1 * 2 ^ 2 + 3)
  io_write_8 (uart_base + 1) (115200 / 115200 / 2 ^ 8)
  io_write_8 uart_base (115200 / 115200 % 2 ^ 8)
  io_write_8 (uart_base + lcr_offset) (1 * 2 ^ 2 + 3)
  return_io 0

-- The loop over a buffer that is not NULL; the bytes' number is returned.
unfoldable pub write_bytes : List ℕ → Io (Unit {0})
unfolding wait_bit
write_bytes [] = return_io tt
write_bytes (b ∷ bs) =
    wait_bit true (uart_base + lsr_offset) lsr_txrdy >> (io_write_8 uart_base b >> write_bytes bs)

unfoldable pub serial_port_write : Option (List ℕ) → Io ℕ
unfolding write_bytes
serial_port_write none = return_io 0
serial_port_write (some buffer) = write_bytes buffer >> return_io (length buffer)

unfoldable pub read_bytes : (count : ℕ) → Io (List ℕ)
unfolding wait_bit
read_bytes zero = return_io []
read_bytes (suc count) =
    wait_bit true (uart_base + lsr_offset) lsr_rxda
    >> (io_read_8 uart_base >>= λ b. read_bytes count >>= λ bs. return_io (b ∷ bs))

unfoldable pub serial_port_read : (number_of_bytes : ℕ) → Io (List ℕ)
unfolding read_bytes
serial_port_read number_of_bytes = read_bytes number_of_bytes

unfoldable pub serial_port_poll : Io Bool
serial_port_poll =
    io_read_8 (uart_base + lsr_offset) >>= λ status. return_io (bit_of status lsr_rxda)
