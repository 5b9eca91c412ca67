-- ===== src/Gdt/Stacks.antt =====
-- The stacks in the task state segment of src/gdt.rs.
use leaf_os.Common.{ℕ, ◌≡◌, ◌≢◌, refl, ◌==◌, ne→==, set, arith, true}
use leaf_os.Gdt.{Segments, tss_ptr, set_kernel_stack}

-- The kernel stack that the timer handler sets does not reach the static `TSS`, which is as it was:
-- it goes to the copy that `tss_ptr` made on its own stack.
pub set_kernel_stack-lost :
    (tss tmp rbx : ℕ) (m : Segments)
    → tss ≢ tmp
    → (set_kernel_stack tss tmp rbx m tss ≡ m tss)
      × ((set_kernel_stack tss tmp rbx m tmp).privilege_stack_table
          ≡ set (m tss).privilege_stack_table 0 rbx)
unfolding set_kernel_stack tss_ptr
set_kernel_stack-lost tss tmp rbx m apart =
    let same : (tmp == tmp) ≡ true = ground arith in (rw (ne→== tss tmp apart) refl, rw same refl)
