-- ===== src/Devices/Waits.antt =====
-- Waiting for a device, and what is written to its ports meanwhile.
use raincloud.Prelude.{
  ℕ, ◌≡◌, refl, ap, ◌∙◌, Bool, true, false, some, List, [], ◌∷◌, ◌++◌, ◌==◌, if◌then◌else◌,
  Bool-cases, inl, inr,
}
use raincloud.Devices.{
  Io, ◌>>=◌, PortEvent, wrote8, wrote16, read8, read16, Run, after, bit_of, wait_bit,
}

-- The values written to a port, in order.
abbrev pub written : (port : ℕ) → List PortEvent → List ℕ
written port [] = []
written port (wrote8 q v ∷ es) = if q == port then v ∷ written port es else written port es
written port (wrote16 q v ∷ es) = if q == port then v ∷ written port es else written port es
written port (read8 q v ∷ es) = written port es
written port (read16 q v ∷ es) = written port es

pub written-append :
    (port : ℕ) (es fs : List PortEvent)
    → written port (es ++ fs) ≡ written port es ++ written port fs
written-append port [] fs = refl
written-append port (wrote8 q v ∷ es) fs = elim (Bool-cases (q == port)) [
  | inl here ↦ rw (here, written-append port es fs) refl
  | inr elsewhere ↦ rw (elsewhere, written-append port es fs) refl
]
written-append port (wrote16 q v ∷ es) fs = elim (Bool-cases (q == port)) [
  | inl here ↦ rw (here, written-append port es fs) refl
  | inr elsewhere ↦ rw (elsewhere, written-append port es fs) refl
]
written-append port (read8 q v ∷ es) fs = written-append port es fs
written-append port (read16 q v ∷ es) fs = written-append port es fs

-- The device answers some times with the bit not as wanted, and then once with it as wanted.
pub data Polls (wanted : Bool) (k : ℕ) : (answers rest : List ℕ) → Type 0 where
  now : (a : ℕ) (rest : List ℕ) → bit_of a k ≡ wanted → Polls wanted k (a ∷ rest) rest
  later :
      (a : ℕ) (answers rest : List ℕ)
      → (bit_of a k ≡ wanted → ⊥)
      → Polls wanted k answers rest
      → Polls wanted k (a ∷ answers) rest

-- A wait that ends: what it did, which is to read.
pub record Waited (wanted : Bool) (port k : ℕ) (answers rest : List ℕ) : Type 0 where
  pub events : List PortEvent
  pub ends :
      wait_bit wanted port k answers ≡ some (record { value = tt; events = events; left = rest })
  pub only_reads : (p : ℕ) → written p events ≡ []

-- The two tests of the loop.
wait_now :
    {A : Type 0} (set wanted : Bool) (ready again : A)
    → set ≡ wanted
    → (if set then (if wanted then ready else again) else (if wanted then again else ready)) ≡ ready
wait_now true true ready again e = refl
wait_now false false ready again e = refl
wait_now true false ready again e = absurd (cc)
wait_now false true ready again e = absurd (cc)

wait_later :
    {A : Type 0} (set wanted : Bool) (ready again : A)
    → (set ≡ wanted → ⊥)
    → (if set then (if wanted then ready else again) else (if wanted then again else ready)) ≡ again
wait_later true true ready again e = absurd (e refl)
wait_later false false ready again e = absurd (e refl)
wait_later true false ready again e = refl
wait_later false true ready again e = refl

pub wait_bit-Polls :
    (wanted : Bool) (port k : ℕ) (answers rest : List ℕ)
    → Polls wanted k answers rest
    → Waited wanted port k answers rest
unfolding wait_bit
wait_bit-Polls wanted port k _ _ (now a rest e) = record {
  events = read8 port a ∷ [];
  ends = wait_now (bit_of a k) wanted _ _ e;
  only_reads = λ p. refl;
}
wait_bit-Polls wanted port k _ _ (later a answers rest e polls) =
    let w = wait_bit-Polls wanted port k answers rest polls in
    record {
      events = read8 port a ∷ w.events;
      ends =
          wait_later (bit_of a k) wanted
            (some (record { value = tt; events = read8 port a ∷ []; left = answers }))
            (after (read8 port a ∷ []) (wait_bit wanted port k answers)) e
          ∙ ap (after (read8 port a ∷ [])) w.ends;
      only_reads = w.only_reads;
    }

-- A program that ends, and the one behind it.
pub bind_ends :
    {A B : Type 0} (m : Io A) (f : A → Io B) (answers : List ℕ) {r : Run A}
    → m answers ≡ some r
    → (m >>= f) answers ≡ after r.events (f r.value r.left)
bind_ends m f answers e = rw (◌>>=◌, e) refl
