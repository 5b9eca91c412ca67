-- ===== src/Arch/Tests.antt =====
-- Runs of src/arch/mod.rs.
use leaf_os.Common.{
  ℕ, ◌≡◌, refl, Bool, true, false, List, ◌∷◌, if◌then◌else◌, ◌/◌, ◌%◌, inl, inr, Bool-cases,
}
use leaf_os.Pit.{Ports, Machine}
use leaf_os.Pit
use leaf_os.Arch.X86.{Processor}
use leaf_os.Arch.{without_interrupts}
use leaf_os.Arch.Simulation.{Views, flag_bit, Simulates, without_interrupts-Simulates}

-- A device that keeps what is written.
abbrev ports : Ports
ports = record { Device = List ℕ; write = λ port byte d. byte ∷ d; read = λ port d. (0, d) }

-- A processor with the flag as a Boolean, among two others that are set.
abbrev processor : Processor
processor = record {
  State = Machine ports;
  nop = λ s. s;
  sti = λ s. record s { interrupts_enabled = true };
  cli = λ s. record s { interrupts_enabled = false };
  hlt = λ s. s;
  int3 = λ s. s;
  pushf = λ s. if s.interrupts_enabled then 0x0206 else 0x0006;
}

shown : (s : Machine ports) → processor.pushf s / 512 % 2 ≡ flag_bit s.interrupts_enabled
shown s = elim (Bool-cases s.interrupts_enabled) [ inl on ↦ rw on refl | inr off ↦ rw off refl ]

processor-Views : Views processor ports
processor-Views = record { view = λ s. s; shows = shown; sets = λ s. refl; clears = λ s. refl }

-- Writes a byte, and says whether it was interruptible.
abbrev write : Machine ports → Bool × Machine ports
write s = (s.interrupts_enabled, Pit.port_write ports 0x40 7 s)

without_interrupts-Simulates_example :
    Simulates processor ports processor-Views
      (without_interrupts processor write)
      (Pit.without_interrupts ports write)
unfolding processor-Views
without_interrupts-Simulates_example =
    without_interrupts-Simulates processor ports processor-Views write write (λ s. refl)
