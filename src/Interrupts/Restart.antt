-- ===== src/Interrupts/Restart.antt =====
-- `restart_apic` of src/interrupts.rs, which `apic_timer_handler` calls at every timer interrupt.
use leaf_os.Common.{
  ℕ, ◌-◌, ◌*◌, ◌/◌, ◌%◌, ◌^◌, ◌≤◌, ◌<◌, ◌≡◌, ap, inl, inr, some, Bool-cases, ◌==◌, arith,
}
use mathlib.Core.Option.{some-injective}
use native.Mathlib.Nat.{div-lt_iff_lt-mul, le-div_iff_mul-le}
use leaf_os.Pit.{pit_dividend}
use leaf_os.Interrupts.{
  Hardware, System, one_shot, timer_delay, scheduler_timer_delay, measured_frequency, timer_initial,
  start_timer_one_shot, restart_apic,
}

-- Multiples of a million do not wrap to 0 in 32 bits, up to a frequency that no count gives.
not_wrapped : (k : ℕ) → 0 < k → k < 80000 → 0 < 1000000 * k % 2 ^ 64 % 2 ^ 32
not_wrapped k lo hi = omega arith

-- Whatever count is measured, the scheduler's timer gets a count that is not 0.
timer_initial-pos :
    (end_count frequency : ℕ)
    → measured_frequency end_count ≡ some frequency
    → 0 < timer_initial frequency scheduler_timer_delay
unfolding measured_frequency timer_initial
timer_initial-pos end_count frequency h = elim (Bool-cases (timer_delay - end_count == 0)) [
  | inl e ↦ cc (e, h)
  | inr e ↦
      let left = timer_delay - end_count in
      let positive : 0 < left = ground arith in
      let enough : 1 * left ≤ timer_delay = omega arith in
      let few : timer_delay < 65536 * left = omega arith in
      let above : 1 ≤ timer_delay / left = (le-div_iff_mul-le positive).1 enough in
      let below : timer_delay / left < 65536 = (div-lt_iff_lt-mul positive).1 few in
      let at : timer_delay / left * pit_dividend ≡ frequency = some-injective _ _ (rw e at h) in
      not_wrapped (frequency / 1000000) (omega arith) (omega arith)
]

-- The timer goes on, with the frequency that was measured: at each timer interrupt `restart_apic`
-- does not panic, if the local APIC is set, acknowledges the interrupt, and starts the timer once
-- more, with a count that is not 0; and nothing else of the system changes.
pub restart_apic-runs :
    (h : Hardware) (s : System h) (l : h.Lapic) (end_count : ℕ)
    → s.lapic ≡ some l
    → measured_frequency end_count ≡ some s.apic_timer_frequency
    → (count : ℕ) × (0 < count)
      × (restart_apic h s
          ≡ some (record s {
            lapic = some (
                h.set_timer_initial count
                  (h.set_timer_mode one_shot (h.set_timer_divide 64 (h.lapic_end_of_interrupt l))));
          }))
unfolding restart_apic start_timer_one_shot
restart_apic-runs h s l end_count has_lapic measured = (
  timer_initial s.apic_timer_frequency scheduler_timer_delay,
  timer_initial-pos end_count s.apic_timer_frequency measured,
  ap (λ o. restart_apic h (record s { lapic = o })) has_lapic,
)
