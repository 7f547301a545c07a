-- ===== src/Devices.antt =====
-- arch/x86/io.h: input and output by ports. What the devices answer is a list of values, one for
-- each read; what is done is a list of events. A program that waits for more answers than there are
-- gives `none`.
pub mod Isa
pub mod Serial
pub mod Waits
mod Tests
use raincloud.Prelude.{
  ℕ, ◌*◌, ◌^◌, ◌/◌, ◌%◌, Bool, Option, none, some, List, [], ◌∷◌, ◌++◌, ◌==◌, if◌then◌else◌,
}

pub data PortEvent : Type 0 where
  wrote8 : (port v : ℕ) → PortEvent
  read8 : (port v : ℕ) → PortEvent
  wrote16 : (port v : ℕ) → PortEvent
  read16 : (port v : ℕ) → PortEvent

pub record Run (A : Type 0) : Type 0 where
  pub value : A
  pub events : List PortEvent
  pub left : List ℕ

abbrev pub Io : Type 0 → Type 0
Io A = List ℕ → Option (Run A)

abbrev pub return_io : {A : Type 0} → A → Io A
return_io a answers = some (record { value = a; events = []; left = answers })

abbrev pub after : {A : Type 0} → List PortEvent → Option (Run A) → Option (Run A)
after events none = none
after events (some r) =
    some (record { value = r.value; events = events ++ r.events; left = r.left })

infixl 5 ◌>>=◌ ◌>>◌
abbrev pub ◌>>=◌ : {A B : Type 0} → Io A → (A → Io B) → Io B
◌>>=◌ m f answers = elim (m answers) [ none ↦ none | some r ↦ after r.events (f r.value r.left) ]

abbrev pub ◌>>◌ : {A B : Type 0} → Io A → Io B → Io B
m >> k = m >>= λ _. k

-- `__io_write_8` and `__io_write_16`.
abbrev pub io_write_8 : (port v : ℕ) → Io (Unit {0})
io_write_8 port v answers =
    some (record { value = tt; events = wrote8 port (v % 2 ^ 8) ∷ []; left = answers })

abbrev pub io_write_16 : (port v : ℕ) → Io (Unit {0})
io_write_16 port v answers =
    some (record { value = tt; events = wrote16 port (v % 2 ^ 16) ∷ []; left = answers })

-- `__io_read_8` and `__io_read_16`.
abbrev pub io_read_8 : (port : ℕ) → Io ℕ
io_read_8 port [] = none
io_read_8 port (a ∷ answers) =
    some (record { value = a; events = read8 port a ∷ []; left = answers })

abbrev pub io_read_16 : (port : ℕ) → Io ℕ
io_read_16 port [] = none
io_read_16 port (a ∷ answers) =
    some (record { value = a; events = read16 port a ∷ []; left = answers })

-- Whether bit `k` is set.
abbrev pub bit_of : (v k : ℕ) → Bool
bit_of v k = v / 2 ^ k % 2 == 1

-- Reading a port until the bit `k` of what it gives is as wanted.
unfoldable pub wait_bit : (wanted : Bool) → (port k : ℕ) → Io (Unit {0})
wait_bit wanted port k [] = none
wait_bit wanted port k (a ∷ answers) =
    let again = after (read8 port a ∷ []) (wait_bit wanted port k answers) in
    let ready = some (record { value = tt; events = read8 port a ∷ []; left = answers }) in
    if bit_of a k then (if wanted then ready else again) else (if wanted then again else ready)
