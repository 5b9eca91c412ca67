-- ===== src/Gdt.antt =====
-- The descriptor tables of src/gdt.rs: the selectors of the GDT, the stacks in the task state
-- segment, and the pointer to it that `apic_timer_handler` of src/interrupts.rs writes through.
-- The GDT itself is the crate `x86_64`'s, a parameter.
pub mod Indices
pub mod Stacks
mod Tests
use leaf_os.Common.{ℕ, ◌+◌, ◌-◌, ◌*◌, List, [], ◌∷◌, set, get_or, ◌==◌, if◌then◌else◌, Option}

pub data Descriptor : Type 0 where
  kernel_code_segment user_code_segment user_data_segment tss_segment : Descriptor

-- `GlobalDescriptorTable`: `add_entry` returns the selector of the new entry.
pub record DescriptorTables : Type 1 where
  pub Table : Type 0
  pub empty : Table
  pub add_entry : Descriptor → Table → ℕ × Table

pub record Selectors : Type 0 where
  pub kernel_code_selector : ℕ
  pub user_code_selector : ℕ
  pub user_data_selector : ℕ
  pub tss_selector : ℕ

pub gdt : (t : DescriptorTables) → t.Table × Selectors
gdt t =
    let (kernel_code_selector, g₁) = t.add_entry kernel_code_segment t.empty in
    let (user_code_selector, g₂) = t.add_entry user_code_segment g₁ in
    let (user_data_selector, g₃) = t.add_entry user_data_segment g₂ in
    let (tss_selector, g₄) = t.add_entry tss_segment g₃ in
    (
      g₄,
      record {
        kernel_code_selector = kernel_code_selector;
        user_code_selector = user_code_selector;
        user_data_selector = user_data_selector;
        tss_selector = tss_selector;
      },
    )

abbrev pub kernel_data_segment_idx : ℕ
kernel_data_segment_idx = 0

abbrev pub user_data_segment_idx : ℕ
user_data_segment_idx = 3

abbrev pub double_fault_ist_index : ℕ
double_fault_ist_index = 0

abbrev pub kernel_stack_index : ℕ
kernel_stack_index = 0

pub record TaskStateSegment : Type 0 where
  pub privilege_stack_table : List ℕ
  pub interrupt_stack_table : List ℕ

abbrev pub stack_size : ℕ
stack_size = 4096

-- What `init` does to the `TSS`, with the addresses of its two static stacks.
pub init_tss : ℕ → ℕ → TaskStateSegment → TaskStateSegment
init_tss double_fault_stack kernel_stack tss = record tss {
  interrupt_stack_table =
      set tss.interrupt_stack_table double_fault_ist_index (double_fault_stack + stack_size);
  privilege_stack_table =
      set tss.privilege_stack_table kernel_stack_index (kernel_stack + stack_size);
}

-- The processor's segment registers.
pub record Loaded (t : DescriptorTables) : Type 0 where
  pub gdtr : t.Table
  pub cs : ℕ
  pub tr : ℕ
  pub tss : TaskStateSegment

pub init : (t : DescriptorTables) → ℕ → ℕ → TaskStateSegment → Loaded t
init t double_fault_stack kernel_stack tss =
    let (table, selectors) = gdt t in
    record {
      gdtr = table;
      cs = selectors.kernel_code_selector;
      tr = selectors.tss_selector;
      tss = init_tss double_fault_stack kernel_stack tss;
    }

-- Task state segments in memory by address; the static `TSS` stands at `tss`.
abbrev pub Segments : Type 0
Segments = ℕ → TaskStateSegment

-- `let mut tmp = TSS` copies it to the stack, at `tmp`, and the address of `tmp` is returned.
pub tss_ptr : ℕ → ℕ → Segments → ℕ × Segments
tss_ptr tss tmp m = (tmp, λ a. if a == tmp then m tss else m a)

-- `call tss_ptr; mov [rax + 4], rbx`: the first privilege stack is 4 bytes into the segment.
pub set_kernel_stack : ℕ → ℕ → ℕ → Segments → Segments
set_kernel_stack tss tmp rbx m =
    let (rax, m₁) = tss_ptr tss tmp m in
    λ a.
      if a == rax
      then (record (m₁ a) { privilege_stack_table = set (m₁ a).privilege_stack_table 0 rbx })
      else m₁ a
