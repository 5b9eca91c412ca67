-- ===== src/Pit/Counts.antt =====
-- What the timer of src/drivers/pit.rs is told, and what it is asked.
use leaf_os.Common.{
  ap, ℕ, ◌+◌, ◌*◌, ◌/◌, ◌%◌, ◌≤◌, ◌<◌, ◌≡◌, refl, ◌∙◌, Bool, true, false, inl, inr, some,
  Bool-cases, if◌then◌else◌, ltb, ne→==, arith,
}
use native.Mathlib.Nat.{div-add-mod', mod-lt}
use leaf_os.Pit.{
  pit_frequency_hz, init, Ports, Machine, without_interrupts, channel0, lo_hi_byte, rate_generator,
  binary, channel_u8, access_mode_u8, operating_mode_u8, data_mode_u8, low_byte, high_byte, joined,
  nearest_divisor, write_mode, set_pit_count, write_channel0_count, read_pit_count, set_frequency,
  pit_dividend,
}
use leaf_os.Pit.Bytes.{joined-bytes, low_byte-mod, high_byte-div}

-- The devices after a write of a count in two bytes, behind the command for it.
abbrev pub loaded : (p : Ports) → ℕ → ℕ → p.Device → p.Device
loaded p low high device = p.write 0x40 high (p.write 0x40 low (p.write 0x43 0x34 device))

module _ (p : Ports) (k : Machine p) where
  set_pit_count-writes :
      (count : ℕ)
      → set_pit_count p count k ≡ (
        tt,
        record k {
          device = p.write 0x40 (high_byte count) (p.write 0x40 (low_byte count) k.device);
        },
      )
  unfolding set_pit_count without_interrupts
  set_pit_count-writes count = elim (Bool-cases k.interrupts_enabled) [
    | inl on ↦ rw on refl
    | inr off ↦ rw off refl
  ]

  write_mode-writes :
      write_mode p channel0 lo_hi_byte rate_generator binary k
      ≡ (tt, record k { device = p.write 0x43 0x34 k.device })
  unfolding write_mode without_interrupts channel_u8 access_mode_u8 operating_mode_u8 data_mode_u8
  write_mode-writes = elim (Bool-cases k.interrupts_enabled) [
    | inl on ↦ rw on refl
    | inr off ↦ rw off refl
  ]

-- `write_channel0_count` writes a count of 16 bits behind its command, and leaves the interrupt
-- flag as it was.
pub write_channel0_count-loaded :
    (p : Ports) (count : ℕ) (k : Machine p)
    → (write_channel0_count p count k).1
      ≡ record k { device = loaded p (low_byte count) (high_byte count) k.device }
unfolding write_channel0_count
write_channel0_count-loaded p count k =
    ap (λ (r : Unit {0} × Machine p). (set_pit_count p count r.1).1) (write_mode-writes p k)
    ∙ ap (λ (r : Unit {0} × Machine p). r.1)
        (set_pit_count-writes p (record k { device = p.write 0x43 0x34 k.device }) count)

-- A quotient is rounded up if the rest is above half of the divisor.
rounded-near :
    (total frequency q r : ℕ) (up : Bool)
    → q * frequency + r ≡ total
    → r < frequency
    → ltb (frequency / 2) r ≡ up
    → (2 * ((if up then q + 1 else q) * frequency) ≤ 2 * total + frequency)
      × (2 * total ≤ 2 * ((if up then q + 1 else q) * frequency) + frequency)
rounded-near total frequency q r true whole rest e =
    let more : frequency < 2 * r = ground arith in
    let next : (q + 1) * frequency ≡ q * frequency + frequency = omega arith in
    rw next (omega arith, omega arith)
rounded-near total frequency q r false whole rest e =
    let less : 2 * r ≤ frequency = ground arith in (omega arith, omega arith)

nearest_divisor-near :
    (frequency : ℕ)
    → 0 < frequency
    → (2 * (nearest_divisor frequency * frequency) ≤ 2 * pit_dividend + frequency)
      × (2 * pit_dividend ≤ 2 * (nearest_divisor frequency * frequency) + frequency)
unfolding nearest_divisor
nearest_divisor-near frequency positive =
    rounded-near pit_dividend frequency (pit_dividend / frequency) (pit_dividend % frequency)
      (ltb (frequency / 2) (pit_dividend % frequency)) (div-add-mod' pit_dividend frequency)
      (mod-lt pit_dividend positive) refl

-- For every frequency but 0, `set_frequency` gives the timer the command for a rate generator on
-- channel 0 and then the low and the high byte of a divisor, cut to 16 bits. The frequency times
-- that divisor is nearest to 1193182: it is off by half of the frequency at most. Interrupts are
-- enabled afterwards if they were before.
pub set_frequency-nearest :
    (p : Ports) (frequency : ℕ) (k : Machine p)
    → 0 < frequency
    → (divisor : ℕ) × (low : ℕ) × (high : ℕ) × (set_frequency p frequency k
        ≡ some (tt, record k { device = loaded p low high k.device }))
      × (low < 256)
      × (high < 256)
      × (low + high * 256 ≡ divisor % 65536)
      × (2 * (divisor * frequency) ≤ 2 * 1193182 + frequency)
      × (2 * 1193182 ≤ 2 * (divisor * frequency) + frequency)
unfolding set_frequency
set_frequency-nearest p frequency k positive =
    let divisor = nearest_divisor frequency in
    let count = divisor % 65536 in
    let near = nearest_divisor-near frequency positive in
    (
      divisor,
      count % 256,
      count / 256,
      rw (ne→== frequency 0 (omega arith), write_mode-writes p k)
          (rw
            (
              set_pit_count-writes p (record k { device = p.write 0x43 0x34 k.device }) count,
              low_byte-mod count (omega arith),
              high_byte-div count (omega arith),
            )
            refl),
      omega arith,
      omega arith,
      omega arith,
      near.0,
      near.1,
    )

-- Behaviour of the timer's channel 0: a latched count is read in two bytes, the low one first.
pub record Latches (p : Ports) (count : p.Device → ℕ) : Type 0 where
  pub reads_low : (d : p.Device) → (p.read 0x40 (p.write 0x43 0 d)).0 ≡ count d % 256
  pub reads_high :
      (d : p.Device) → (p.read 0x40 (p.read 0x40 (p.write 0x43 0 d)).1).0 ≡ count d / 256

-- If the timer answers a latch command with the low and then the high byte of its count, a count
-- below 2 ^ 16, `read_pit_count` returns that count, and interrupts are enabled afterwards if they
-- were before.
pub read_pit_count-latched :
    (p : Ports) (count : p.Device → ℕ) (k : Machine p)
    → Latches p count
    → count k.device < 65536
    → ((read_pit_count p k).0 ≡ count k.device)
      × ((read_pit_count p k).1.interrupts_enabled ≡ k.interrupts_enabled)
unfolding read_pit_count without_interrupts
read_pit_count-latched p count k law small =
    let value : joined (p.read 0x40 (p.write 0x43 0 k.device)).0
          (p.read 0x40 (p.read 0x40 (p.write 0x43 0 k.device)).1).0
        ≡ count k.device =
      rw (law.reads_low k.device, law.reads_high k.device)
        (joined-bytes (count k.device % 256) (count k.device / 256) (omega arith) (omega arith)
          ∙ omega arith) in
    elim (Bool-cases k.interrupts_enabled) [
      | inl on ↦ rw on (value, refl)
      | inr off ↦ rw off (value, refl)
    ]

-- `init` returns.
pub init-returns : (p : Ports) (k : Machine p) → (k' : Machine p) × (init p k ≡ some (tt, k'))
unfolding init
init-returns p k =
    let r = set_frequency-nearest p pit_frequency_hz k (omega arith) in
    (record k { device = loaded p r.1 r.2 k.device }, r.3)
