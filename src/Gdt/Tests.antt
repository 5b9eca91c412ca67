-- ===== src/Gdt/Tests.antt =====
-- Runs of src/gdt.rs.
use leaf_os.Common.{ℕ, ◌+◌, ◌*◌, ◌≡◌, refl, true, false, arith, [], ◌∷◌}
use leaf_os.Scheduler.{code_selector}
use leaf_os.Gdt.{DescriptorTables, gdt, user_data_segment_idx, Segments, set_kernel_stack}
use leaf_os.Gdt.Indices.{privilege, width, Appends, gdt-code_selector}
use leaf_os.Gdt.Stacks.{set_kernel_stack-lost}

-- A table by the number of its entries.
abbrev counted : DescriptorTables
counted = record { Table = ℕ; empty = 1; add_entry = λ d g. (8 * g + privilege d, g + width d) }

counted-Appends : Appends counted (λ g. g)
counted-Appends = record { null_entry = refl; selector = λ d g. refl; appended = λ d g. refl }

gdt-code_selector_example :
    ((gdt counted).1.kernel_code_selector ≡ code_selector true)
    × ((gdt counted).1.user_code_selector ≡ code_selector false)
    × ((gdt counted).1.user_data_selector ≡ 8 * user_data_segment_idx + 3)
    × ((gdt counted).1.tss_selector ≡ 8 * (user_data_segment_idx + 1))
gdt-code_selector_example = gdt-code_selector counted (λ g. g) counted-Appends

abbrev segments : Segments
segments a = record {
  privilege_stack_table = a ∷ 0 ∷ 0 ∷ [];
  interrupt_stack_table = 0 ∷ 0 ∷ 0 ∷ 0 ∷ 0 ∷ 0 ∷ 0 ∷ [];
}

set_kernel_stack-lost_example :
    (set_kernel_stack 100 200 0x9000 segments 100 ≡ segments 100)
    × ((set_kernel_stack 100 200 0x9000 segments 200).privilege_stack_table ≡ 0x9000 ∷ 0 ∷ 0 ∷ [])
set_kernel_stack-lost_example = set_kernel_stack-lost 100 200 0x9000 segments (λ e. omega arith)
