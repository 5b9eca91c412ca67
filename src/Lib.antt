-- ===== src/Lib.antt =====
-- LeafOS, a kernel for x86-64 with a text screen, a shell, a round-robin scheduler, system calls
-- and a heap.
--
-- The parts and their files, with the paths of the sources from the repository's root:
--   Common          numbers, tests, lists and panics that the parts share.
--   Vga             src/vga_buffer.rs. `Writer` is the struct of that name: the cursor's column,
--                   the colour, and the buffer as a function of row and column. Reading or
--                   writing a cell outside of the buffer is a panic.
--   Shell           src/shell.rs and `_print` of src/print.rs. `Console` is the state that both
--                   share: the shell, the writer, and whether the global `SHELL` is set. A print
--                   goes through the shell if it is, and straight to the writer if not.
--   Scheduler       src/scheduler.rs, src/process.rs, and the segment indices of src/gdt.rs.
--                   `Kernel` holds the queue with the globals `TASK`, `INIT`, `IDLE_TASK` and
--                   `VOID_TASK`. `turn` is what `apic_timer_handler` of src/interrupts.rs does
--                   between its pushes and its pops; Scheduler.Context has the pushes, the pops
--                   and `iretq`, and Scheduler.Switch the whole handler.
--   Syscall         src/syscall.rs, src/error_codes.rs, and `syscall_handler` of
--                   src/interrupts.rs. A `Machine` has registers, a stack, memory and a console,
--                   so that a `write` runs from `do_syscall_3` down to the screen. The registers
--                   that a call does not keep are saved on entry and restored at the end, which
--                   is what the compiler makes of an `x86-interrupt` function.
--   Allocator       src/allocators/fixed_size_block.rs. The nodes that stand in free blocks are a
--                   function from addresses.
--   FrameAllocator  src/memory.rs and `init_heap` of src/allocators/mod.rs.
--   Arch            src/arch/mod.rs for x86-64, and src/arch/x86/mod.rs in Arch.X86.
--   Pit             src/drivers/pit.rs. The state of interrupts is one Boolean there;
--                   Arch.Simulation has the processor's flags behind it.
--   Gdt             src/gdt.rs: the selectors, the stacks of the task state segment, and `tss_ptr`.
--   Events          src/events.rs, and the handler that `init_kb_handler` of src/lib.rs registers.
--   Interrupts      src/interrupts.rs but for the handlers of the scheduler and of system calls,
--                   and src/drivers/pic.rs. `System` is what the handlers share. Interrupts.Table
--                   has the table that `init` fills, Interrupts.Exceptions the handlers of
--                   exceptions with the panic handler of src/main.rs, and the allocation error
--                   handler and `hlt_loop` of src/lib.rs.
--   Startup         `kernel_main` of src/main.rs, with `init` of src/lib.rs, `setup` of
--                   src/memory.rs, and `init` and `start_proc` of src/scheduler.rs. `until_timer`
--                   and the functions behind it are `kernel_main` up to a point on its way.
--   Testing         the test machinery of src/lib.rs, and what it sends over src/serial.rs;
--                   Testing.Main has the copy of it in src/main.rs, and Testing.Screen the tests
--                   of src/vga_buffer.rs.
--   Containers      src/data_structures: the two kinds of linked list, and the ring buffer.
--   Drivers         src/drivers/driver.rs, and the screen as a character driver.
-- A key goes from the port through Interrupts and Events to Shell and Vga; a timer interrupt goes
-- to Scheduler; Startup runs the parts in order.
-- In each part the file of that name has the definitions, its child modules have the proofs, and
-- Tests has runs at concrete inputs.
--
-- How the code is read:
--   A panic is `none`, and nothing runs behind it. Locks are taken at once, as on one core.
--   Memory is a function from the address of a word to the word; addresses are natural numbers,
--   and where the code takes an offset downwards, the theorems ask for room below. The bytes of a
--   text that `write` prints are a parameter. The id counter wraps at 2 ^ 64.
--   `println!` of a text is its bytes with a newline behind them, in one call of `_print`.
--   The loops over rows, columns and bytes are recursion on the number of rounds left, or on the
--   list. `step_by` alone runs on fuel: the end address of its region, as each round goes up by
--   4096 and there are no rounds at or behind the end.
--
-- Parameters: key codes of the crate `pc_keyboard` (`Keyboard`), the fallback heap of
-- `linked_list_allocator` (`Fallback`), of which `Serves` says that the regions it holds are
-- apart, aligned and inside its bounds, frames, pages, virtual addresses, page tables and `map_to`
-- of `x86_64` (`Paging`), of which `Maps` says that a success maps its page and loses none, and
-- `Grants` that a page which is not mapped is mapped with a bounded number of frames for page
-- tables, its descriptor table (`DescriptorTables`), of which `Appends` says that entries are
-- appended, the devices behind the ports (`Ports`), of which `Latches` says how the timer answers
-- a latch command, and the interrupt controllers and the scancode decoder (`Hardware`). The memory
-- map of the crate `bootloader` is a list of regions, and the instructions of the processor
-- (`Processor`) have the laws of `Views`: `sti` and `cli` set and clear the interrupt flag, bit 9
-- of what `pushf` pushes. What Rust formats by itself, such as a panic's place, is a parameter
-- too.
--
-- The wait of `init_apic` runs over rounds of interrupts, those that come in before the processor
-- halts and the one that wakes it; each is taken while interrupts are enabled, by the table, and
-- with what the devices have done up to then. `Clock` and `Counting` say of the interval timer that
-- it counts down from the count it was given. `kernel_main` has such rounds, and the interrupts
-- before `init_apic`; behind that it is run with no interrupt in between: a timer interrupt takes
-- it off the processor for good, which is what Startup.Interrupted is about.
-- The theorems on keyboard interrupts are about runs of `keyboard_interrupt_handler`, whatever
-- vector the keyboard has. Which allocations of `write` succeed is a function, `heap`.
--
-- Not modelled: the frame that the processor pushes at the entry of an interrupt, and the
-- interrupt flag in `apic_timer_handler`; addresses of frames from 2 ^ 52 on, where
-- `PhysAddr::new` panics; the device behind the serial line (src/serial.rs); src/filesystem.rs and
-- src/data_structures/rb_tree.rs, which declare nothing; mutable references into a list; reading
-- the processor's features (src/arch/x86/cpuid.rs); the other architectures (src/arch/riscv and
-- src/arch/aarch64), which are not built and are partly `todo!()`; the test of src/interrupts.rs,
-- which does not come back from its breakpoint.
pub mod Common
pub mod Arch
pub mod Vga
pub mod Shell
pub mod Scheduler
pub mod Syscall
pub mod Testing
pub mod Allocator
pub mod FrameAllocator
pub mod Pit
pub mod Gdt
pub mod Events
pub mod Interrupts
pub mod Startup
pub mod Containers
pub mod Drivers
