-- ===== src/Interrupts/Table.antt =====
-- The interrupt descriptor table that `init` of src/interrupts.rs fills.
use leaf_os.Common.{
  ℕ, ◌+◌, List, [], ◌∷◌, Bool, true, false, ap, Option, none, some, ◌==◌, if◌then◌else◌, ◌≡◌, ◌≢◌,
  refl,
}
use leaf_os.Gdt.{double_fault_ist_index}

pub data Exception : Type 0 where
  breakpoint overflow bound_range_exceeded general_protection_fault alignment_check : Exception
  divide_error non_maskable_interrupt invalid_opcode device_not_available : Exception
  segment_not_present stack_segment_fault security_exception simd_floating_point : Exception
  x87_floating_point vmm_communication_exception virtualization machine_check : Exception
  debug invalid_tss page_fault double_fault : Exception

-- The fields of the table by their vectors, as the processor numbers them.
pub vector : Exception → ℕ
vector divide_error = 0
vector debug = 1
vector non_maskable_interrupt = 2
vector breakpoint = 3
vector overflow = 4
vector bound_range_exceeded = 5
vector invalid_opcode = 6
vector device_not_available = 7
vector double_fault = 8
vector invalid_tss = 10
vector segment_not_present = 11
vector stack_segment_fault = 12
vector general_protection_fault = 13
vector page_fault = 14
vector x87_floating_point = 16
vector alignment_check = 17
vector machine_check = 18
vector simd_floating_point = 19
vector virtualization = 20
vector vmm_communication_exception = 29
vector security_exception = 30

-- The handlers by what they handle.
pub data Handler : Type 0 where
  exception_handler : Exception → Handler
  timer_interrupt_handler keyboard_interrupt_handler apic_timer_config_handler : Handler
  apic_timer_handler apic_error_handler apic_spurious_handler syscall_handler : Handler

pub record Entry : Type 0 where
  pub handler : Handler
  pub stack_index : Option ℕ

abbrev pub Idt : Type 0
Idt = ℕ → Option Entry

abbrev pub pic_1_offset : ℕ
pic_1_offset = 32

pub data InterruptIndex : Type 0 where
  timer apic_timer apic_error apic_spurious keyboard syscall invalid : InterruptIndex

-- `Keyboard` has no value of its own, and follows `ApicSpurious`.
abbrev pub as_u8 : InterruptIndex → ℕ
as_u8 timer = pic_1_offset
as_u8 apic_timer = 33
as_u8 apic_error = 34
as_u8 apic_spurious = 35
as_u8 keyboard = 36
as_u8 syscall = 128
as_u8 invalid = 255

abbrev pub put : Idt → ℕ → Entry → Idt
put idt n entry k = if k == n then some entry else idt k

abbrev pub set_handler_fn : Idt → ℕ → Handler → Idt
set_handler_fn idt n handler = put idt n (record { handler = handler; stack_index = none })

abbrev pub set_exception : Idt → Exception → Idt
set_exception idt e = set_handler_fn idt (vector e) (exception_handler e)

pub set_exceptions : Idt → List Exception → Idt
set_exceptions idt [] = idt
set_exceptions idt (e ∷ rest) = set_exceptions (set_exception idt e) rest

-- The exceptions whose handlers `init` sets one by one.
abbrev handled : List Exception
handled =
    breakpoint ∷ overflow ∷ bound_range_exceeded ∷ general_protection_fault ∷ alignment_check
    ∷ divide_error ∷ non_maskable_interrupt ∷ invalid_opcode ∷ device_not_available
    ∷ segment_not_present ∷ stack_segment_fault ∷ security_exception ∷ simd_floating_point
    ∷ x87_floating_point ∷ vmm_communication_exception ∷ virtualization ∷ debug ∷ invalid_tss
    ∷ page_fault ∷ []

pub init_idt : Idt → Idt
init_idt idt =
    let idt₁ = set_exceptions idt handled in
    let idt₂ = put idt₁ (vector double_fault) (record {
      handler = exception_handler double_fault;
      stack_index = some double_fault_ist_index;
    }) in
    let idt₃ = set_handler_fn idt₂ (as_u8 timer) timer_interrupt_handler in
    let idt₄ = set_handler_fn idt₃ (as_u8 keyboard) keyboard_interrupt_handler in
    let idt₅ = set_handler_fn idt₄ (as_u8 apic_timer) apic_timer_config_handler in
    let idt₆ = set_handler_fn idt₅ (as_u8 apic_error) apic_error_handler in
    let idt₇ = set_handler_fn idt₆ (as_u8 apic_spurious) apic_spurious_handler in
    set_handler_fn idt₇ (as_u8 syscall) syscall_handler

-- The stack that the processor switches to for an exception, by its index.
abbrev pub stack_of : Exception → Option ℕ
stack_of double_fault = some 0
stack_of _ = none

abbrev is_machine_check : Exception → Bool
is_machine_check machine_check = true
is_machine_check _ = false

pub not_machine_check : (e : Exception) → is_machine_check e ≡ false → e ≢ machine_check
not_machine_check e h same = cc (h, ap is_machine_check same)

-- After `init` every exception but the machine check has its own handler, the double fault alone
-- with a stack of its own; the machine check has the entry that it had.
pub init_idt-exceptions :
    (idt : Idt) (e : Exception)
    → (e ≢ machine_check
        → init_idt idt (vector e)
          ≡ some (record { handler = exception_handler e; stack_index = stack_of e }))
      × (e ≡ machine_check → init_idt idt (vector e) ≡ idt 18)
unfolding init_idt set_exceptions vector
init_idt-exceptions idt breakpoint = (λ ne. refl, λ e. absurd (not_machine_check breakpoint refl e))
init_idt-exceptions idt overflow = (λ ne. refl, λ e. absurd (not_machine_check overflow refl e))
init_idt-exceptions idt bound_range_exceeded =
    (λ ne. refl, λ e. absurd (not_machine_check bound_range_exceeded refl e))
init_idt-exceptions idt general_protection_fault =
    (λ ne. refl, λ e. absurd (not_machine_check general_protection_fault refl e))
init_idt-exceptions idt alignment_check =
    (λ ne. refl, λ e. absurd (not_machine_check alignment_check refl e))
init_idt-exceptions idt divide_error =
    (λ ne. refl, λ e. absurd (not_machine_check divide_error refl e))
init_idt-exceptions idt non_maskable_interrupt =
    (λ ne. refl, λ e. absurd (not_machine_check non_maskable_interrupt refl e))
init_idt-exceptions idt invalid_opcode =
    (λ ne. refl, λ e. absurd (not_machine_check invalid_opcode refl e))
init_idt-exceptions idt device_not_available =
    (λ ne. refl, λ e. absurd (not_machine_check device_not_available refl e))
init_idt-exceptions idt segment_not_present =
    (λ ne. refl, λ e. absurd (not_machine_check segment_not_present refl e))
init_idt-exceptions idt stack_segment_fault =
    (λ ne. refl, λ e. absurd (not_machine_check stack_segment_fault refl e))
init_idt-exceptions idt security_exception =
    (λ ne. refl, λ e. absurd (not_machine_check security_exception refl e))
init_idt-exceptions idt simd_floating_point =
    (λ ne. refl, λ e. absurd (not_machine_check simd_floating_point refl e))
init_idt-exceptions idt x87_floating_point =
    (λ ne. refl, λ e. absurd (not_machine_check x87_floating_point refl e))
init_idt-exceptions idt vmm_communication_exception =
    (λ ne. refl, λ e. absurd (not_machine_check vmm_communication_exception refl e))
init_idt-exceptions idt virtualization =
    (λ ne. refl, λ e. absurd (not_machine_check virtualization refl e))
init_idt-exceptions idt machine_check = (λ ne. absurd (ne refl), λ e. refl)
init_idt-exceptions idt debug = (λ ne. refl, λ e. absurd (not_machine_check debug refl e))
init_idt-exceptions idt invalid_tss =
    (λ ne. refl, λ e. absurd (not_machine_check invalid_tss refl e))
init_idt-exceptions idt page_fault = (λ ne. refl, λ e. absurd (not_machine_check page_fault refl e))
init_idt-exceptions idt double_fault =
    (λ ne. refl, λ e. absurd (not_machine_check double_fault refl e))

-- The first controller's lines begin at vector 32, and the keyboard is on its line 1. After `init`
-- the entry for that vector, 33, is the handler that measures the timer; the keyboard's handler
-- stands at 36, as `Keyboard` follows `ApicSpurious`.
pub init_idt-keyboard_line :
    (idt : Idt)
    → (init_idt idt (pic_1_offset + 1)
        ≡ some (record { handler = apic_timer_config_handler; stack_index = none }))
      × (init_idt idt 36
          ≡ some (record { handler = keyboard_interrupt_handler; stack_index = none }))
unfolding init_idt set_exceptions vector
init_idt-keyboard_line idt = (refl, refl)

-- A handler without a stack of its own at a vector.
abbrev pub HandledBy : Idt → ℕ → Handler → Type 0
HandledBy idt n handler = idt n ≡ some (record { handler = handler; stack_index = none })

-- The handlers of devices as they are while the timer is measured.
abbrev pub HandlesDevices : Idt → Type 0
HandlesDevices idt =
    HandledBy idt 32 timer_interrupt_handler
    × HandledBy idt 33 apic_timer_config_handler
    × HandledBy idt 34 apic_error_handler
    × HandledBy idt 35 apic_spurious_handler
    × HandledBy idt 36 keyboard_interrupt_handler

pub init_idt-HandlesDevices : (idt : Idt) → HandlesDevices (init_idt idt)
unfolding init_idt set_exceptions vector
init_idt-HandlesDevices idt = (refl, refl, refl, refl, refl)
