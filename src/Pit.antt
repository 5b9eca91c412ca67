-- ===== src/Pit.antt =====
-- The interval timer of src/drivers/pit.rs, with `without_interrupts` of src/arch/mod.rs. What the
-- ports do is a parameter.
pub mod Bytes
pub mod Counts
mod Tests
use leaf_os.Common.{
  ℕ, ◌+◌, ◌*◌, ◌/◌, ◌%◌, ◌^◌, bit_and, bit_or, Bool, true, false, Option, none, some, ltb, ◌==◌,
  if◌then◌else◌,
}

-- The devices behind the ports: what a write and a read of a byte do to them.
pub record Ports : Type 1 where
  pub Device : Type 0
  pub write : ℕ → ℕ → Device → Device
  pub read : ℕ → Device → ℕ × Device

pub data Channel : Type 0 where
  channel0 channel1 channel2 read_back_command : Channel

pub data AccessMode : Type 0 where
  latch_count_down_value_command lo_byte_only hi_byte_only lo_hi_byte : AccessMode

pub data OperatingMode : Type 0 where
  interrupt_on_terminal_count hardware_re_triggerable_one_shot rate_generator : OperatingMode
  square_wave_generator software_triggered_strobe hardware_triggered_strobe : OperatingMode

pub data DataMode : Type 0 where
  binary bcd : DataMode

-- `as u8`.
pub channel_u8 : Channel → ℕ
channel_u8 channel0 = 0
channel_u8 channel1 = 1
channel_u8 channel2 = 2
channel_u8 read_back_command = 3

pub access_mode_u8 : AccessMode → ℕ
access_mode_u8 latch_count_down_value_command = 0
access_mode_u8 lo_byte_only = 1
access_mode_u8 hi_byte_only = 2
access_mode_u8 lo_hi_byte = 3

pub operating_mode_u8 : OperatingMode → ℕ
operating_mode_u8 interrupt_on_terminal_count = 0
operating_mode_u8 hardware_re_triggerable_one_shot = 1
operating_mode_u8 rate_generator = 2
operating_mode_u8 square_wave_generator = 3
operating_mode_u8 software_triggered_strobe = 4
operating_mode_u8 hardware_triggered_strobe = 5

pub data_mode_u8 : DataMode → ℕ
data_mode_u8 binary = 0
data_mode_u8 bcd = 1

abbrev pub channel0_port : ℕ
channel0_port = 0x40

abbrev pub command_reg : ℕ
command_reg = 0x43

abbrev pub pit_dividend : ℕ
pit_dividend = 1193182

abbrev pub pit_frequency_hz : ℕ
pit_frequency_hz = 1000

-- The byte of `write_mode`, on fields as numbers.
abbrev pub mode_byte : ℕ → ℕ → ℕ → ℕ → ℕ
mode_byte channel access operating mode =
    bit_or (bit_or (bit_or mode (operating * 2 ^ 1 % 256)) (access * 2 ^ 4 % 256))
      (channel * 2 ^ 6 % 256)

-- The bytes of a count, as they are written, and the count, as it is read.
abbrev pub low_byte : ℕ → ℕ
low_byte count = bit_and count 0xff % 256

abbrev pub high_byte : ℕ → ℕ
high_byte count = bit_and count 0xff00 / 2 ^ 8 % 256

abbrev pub joined : ℕ → ℕ → ℕ
joined count_low count_high = bit_or count_low (count_high * 2 ^ 8 % 65536)

-- The divisor for a frequency that is not 0.
pub nearest_divisor : ℕ → ℕ
nearest_divisor frequency =
    let new_divisor = pit_dividend / frequency in
    if ltb (frequency / 2) (pit_dividend % frequency) then new_divisor + 1 else new_divisor

module _ (p : Ports) where
  open p use {Device, write, read}

  -- The devices, and whether the processor takes interrupts.
  pub record Machine : Type 0 where
    pub device : Device
    pub interrupts_enabled : Bool

  unfoldable pub without_interrupts : {R : Type 0} → (Machine → R × Machine) → Machine → R × Machine
  without_interrupts f k =
      if k.interrupts_enabled
      then (let (result, k') = f (record k { interrupts_enabled = false }) in
          (result, record k' { interrupts_enabled = true }))
      else f k

  abbrev pub port_write : ℕ → ℕ → Machine → Machine
  port_write port byte k = record k { device = write port byte k.device }

  abbrev pub port_read : ℕ → Machine → ℕ × Machine
  port_read port k = let (byte, device) = read port k.device in (byte, record k { device = device })

  pub write_mode : Channel → AccessMode → OperatingMode → DataMode → Machine → Unit {0} × Machine
  write_mode channel access_mode operating_mode data_mode = without_interrupts (λ k.
      let byte =
        mode_byte (channel_u8 channel) (access_mode_u8 access_mode)
          (operating_mode_u8 operating_mode) (data_mode_u8 data_mode) in
      (tt, port_write command_reg byte k))

  pub read_pit_count : Machine → ℕ × Machine
  read_pit_count = without_interrupts (λ k.
      let (count_low, k₁) = port_read channel0_port (port_write command_reg 0 k) in
      let (count_high, k₂) = port_read channel0_port k₁ in (joined count_low count_high, k₂))

  pub set_pit_count : ℕ → Machine → Unit {0} × Machine
  set_pit_count count = without_interrupts (λ k.
      let k₁ = port_write channel0_port (low_byte count) k in
      (tt, port_write channel0_port (high_byte count) k₁))

  pub write_channel0_count : ℕ → Machine → Unit {0} × Machine
  write_channel0_count count k =
      set_pit_count count (write_mode channel0 lo_hi_byte rate_generator binary k).1

  -- `none` is the panic of a division by zero; `as u16` wraps the divisor.
  pub set_frequency : ℕ → Machine → Option (Unit {0} × Machine)
  set_frequency frequency k =
      if frequency == 0
      then none
      else some (
          set_pit_count (nearest_divisor frequency % 65536)
            (write_mode channel0 lo_hi_byte rate_generator binary k).1)

  pub init : Machine → Option (Unit {0} × Machine)
  init k = set_frequency pit_frequency_hz k
