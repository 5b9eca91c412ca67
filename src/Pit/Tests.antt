-- ===== src/Pit/Tests.antt =====
-- Runs of the timer of src/drivers/pit.rs.
use leaf_os.Common.{
  ℕ, ◌+◌, ◌*◌, ◌/◌, ◌%◌, ◌≤◌, ◌<◌, ◌≡◌, refl, true, some, ◌==◌, if◌then◌else◌, arith,
}
use leaf_os.Pit.{Ports, Machine, set_frequency, read_pit_count}
use leaf_os.Pit.Counts.{Latches, loaded, set_frequency-nearest, read_pit_count-latched}

-- A timer with its count, and whether the low byte of a latched count was read.
abbrev timer : Ports
timer = record {
  Device = ℕ × ℕ;
  write = λ port byte d. if port == 0x43 then (d.0, 0) else d;
  read = λ port d. (if d.1 == 0 then d.0 % 256 else d.0 / 256, (d.0, 1));
}

abbrev counting : Machine timer
counting = record { device = (0x1234, 1); interrupts_enabled = true }

timer-Latches : Latches timer (λ d. d.0)
timer-Latches = record { reads_low = λ d. refl; reads_high = λ d. refl }

set_frequency-nearest_example :
    (divisor : ℕ) × (low : ℕ) × (high : ℕ) × (set_frequency timer 1000 counting
      ≡ some (tt, record counting { device = loaded timer low high (0x1234, 1) }))
    × (low < 256)
    × (high < 256)
    × (low + high * 256 ≡ divisor % 65536)
    × (2 * (divisor * 1000) ≤ 2 * 1193182 + 1000)
    × (2 * 1193182 ≤ 2 * (divisor * 1000) + 1000)
set_frequency-nearest_example = set_frequency-nearest timer 1000 counting (omega arith)

read_pit_count-latched_example :
    ((read_pit_count timer counting).0 ≡ 0x1234)
    × ((read_pit_count timer counting).1.interrupts_enabled ≡ true)
read_pit_count-latched_example =
    read_pit_count-latched timer (λ d. d.0) counting timer-Latches (omega arith)
