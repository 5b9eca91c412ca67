-- ===== src/Pit/Bytes.antt =====
-- The bytes that src/drivers/pit.rs sends to the timer and takes from it.
use leaf_os.Common.{
  ℕ, ◌+◌, ◌*◌, ◌/◌, ◌%◌, ◌<◌, ◌≡◌, refl, Bool, true, ◌&&◌, ◌==◌, ==_iff, ap, sym, ◌∙◌, arith,
}
use leaf_os.Common.Tables.{pass_below, pass_below-entry}
use leaf_os.Pit.{
  Channel, AccessMode, OperatingMode, DataMode, channel_u8, access_mode_u8, operating_mode_u8,
  data_mode_u8, channel0, channel1, channel2, read_back_command, latch_count_down_value_command,
  lo_byte_only, hi_byte_only, lo_hi_byte, interrupt_on_terminal_count,
  hardware_re_triggerable_one_shot, rate_generator, square_wave_generator,
  software_triggered_strobe, hardware_triggered_strobe, binary, bcd, mode_byte, low_byte, high_byte,
  joined,
}

-- A test of two bytes, low and high.
abbrev on_bytes : (ℕ → ℕ → Bool) → Bool
on_bytes test = pass_below 256 (λ high. pass_below 256 (λ low. test low high))

on_bytes-entry :
    (test : ℕ → ℕ → Bool) (low high : ℕ)
    → on_bytes test ≡ true
    → low < 256
    → high < 256
    → test low high ≡ true
on_bytes-entry test low high passed l h =
    pass_below-entry 256 (λ x. test x high) low
      (pass_below-entry 256 (λ y. pass_below 256 (λ x. test x y)) high passed h) l

joined_table : on_bytes (λ low high. joined low high == low + high * 256) ≡ true
unfolding pass_below
joined_table = refl

low_table : on_bytes (λ low high. low_byte (low + high * 256) == low) ≡ true
unfolding pass_below
low_table = refl

high_table : on_bytes (λ low high. high_byte (low + high * 256) == high) ≡ true
unfolding pass_below
high_table = refl

pub joined-bytes : (low high : ℕ) → low < 256 → high < 256 → joined low high ≡ low + high * 256
joined-bytes low high l h =
    (==_iff _ _).0 (on_bytes-entry (λ x y. joined x y == x + y * 256) low high joined_table l h)

split : (count : ℕ) → count % 256 + count / 256 * 256 ≡ count
split count = omega arith

pub low_byte-mod : (count : ℕ) → count < 65536 → low_byte count ≡ count % 256
low_byte-mod count small =
    ap low_byte (sym (split count))
    ∙ (==_iff _ _).0 (
        on_bytes-entry (λ x y. low_byte (x + y * 256) == x) (count % 256) (count / 256) low_table
          (omega arith) (omega arith))

pub high_byte-div : (count : ℕ) → count < 65536 → high_byte count ≡ count / 256
high_byte-div count small =
    ap high_byte (sym (split count))
    ∙ (==_iff _ _).0 (
        on_bytes-entry (λ x y. high_byte (x + y * 256) == y) (count % 256) (count / 256) high_table
          (omega arith) (omega arith))

-- A byte whose fields are these, as the timer takes a mode byte apart.
abbrev has_fields : ℕ → ℕ → ℕ → ℕ → ℕ → Bool
has_fields byte channel access operating mode =
    (byte / 64 == channel && byte / 16 % 4 == access)
    && (byte / 2 % 8 == operating && byte % 2 == mode)

abbrev fields_kept : ℕ → ℕ → ℕ → ℕ → Bool
fields_kept channel access operating mode =
    has_fields (mode_byte channel access operating mode) channel access operating mode

fields_table :
    pass_below 4
      (λ c. pass_below 4 (λ a. pass_below 6 (λ o. pass_below 2 (λ m. fields_kept c a o m))))
    ≡ true
unfolding pass_below
fields_table = refl

fields_kept-entry : (c a o m : ℕ) → c < 4 → a < 4 → o < 6 → m < 2 → fields_kept c a o m ≡ true
fields_kept-entry c a o m hc ha ho hm =
    let at_c =
      pass_below-entry 4
        (λ c'.
          pass_below 4 (λ a'. pass_below 6 (λ o'. pass_below 2 (λ m'. fields_kept c' a' o' m'))))
        c fields_table hc in
    let at_a =
      pass_below-entry 4 (λ a'. pass_below 6 (λ o'. pass_below 2 (λ m'. fields_kept c a' o' m'))) a
        at_c ha in
    let at_o = pass_below-entry 6 (λ o'. pass_below 2 (λ m'. fields_kept c a o' m')) o at_a ho in
    pass_below-entry 2 (λ m'. fields_kept c a o m') m at_o hm

channel-lt : (channel : Channel) → channel_u8 channel < 4
unfolding channel_u8
channel-lt = elim [
  | channel0 ↦ omega arith
  | channel1 ↦ omega arith
  | channel2 ↦ omega arith
  | read_back_command ↦ omega arith
]

access-lt : (access : AccessMode) → access_mode_u8 access < 4
unfolding access_mode_u8
access-lt = elim [
  | latch_count_down_value_command ↦ omega arith
  | lo_byte_only ↦ omega arith
  | hi_byte_only ↦ omega arith
  | lo_hi_byte ↦ omega arith
]

operating-lt : (operating : OperatingMode) → operating_mode_u8 operating < 6
unfolding operating_mode_u8
operating-lt = elim [
  | interrupt_on_terminal_count ↦ omega arith
  | hardware_re_triggerable_one_shot ↦ omega arith
  | rate_generator ↦ omega arith
  | square_wave_generator ↦ omega arith
  | software_triggered_strobe ↦ omega arith
  | hardware_triggered_strobe ↦ omega arith
]

mode-lt : (mode : DataMode) → data_mode_u8 mode < 2
unfolding data_mode_u8
mode-lt = elim [ binary ↦ omega arith | bcd ↦ omega arith ]

-- The byte of a mode, taken apart as the command register's layout says, gives back the channel,
-- the access mode, the operating mode and the data mode.
pub mode_byte-fields :
    (channel : Channel) (access : AccessMode) (operating : OperatingMode) (mode : DataMode)
    → (byte : ℕ) × (mode_byte
          (channel_u8 channel)
          (access_mode_u8 access)
          (operating_mode_u8 operating)
          (data_mode_u8 mode)
        ≡ byte)
      × (byte / 64 ≡ channel_u8 channel)
      × (byte / 16 % 4 ≡ access_mode_u8 access)
      × (byte / 2 % 8 ≡ operating_mode_u8 operating)
      × (byte % 2 ≡ data_mode_u8 mode)
mode_byte-fields channel access operating mode =
    let byte =
      mode_byte (channel_u8 channel) (access_mode_u8 access) (operating_mode_u8 operating)
        (data_mode_u8 mode) in
    let kept =
      fields_kept-entry _ _ _ _ (channel-lt channel) (access-lt access) (operating-lt operating)
        (mode-lt mode) in
    (
      byte,
      refl,
      ground (arith, kept),
      ground (arith, kept),
      ground (arith, kept),
      ground (arith, kept),
    )
