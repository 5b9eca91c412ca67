-- ===== src/Drivers.antt =====
-- The driver interfaces of src/drivers/driver.rs, and the screen of src/vga_buffer.rs as a
-- character driver. A driver in its box is its methods with its state; `none` is a panic.
pub mod Screen
mod Tests
use leaf_os.Common.{ℕ, Bool, true, Option, none, some, List, ◌>>=◌}
use leaf_os.Interrupts.Table.{Idt}

-- The traits, over the state of what implements them.
pub record Driver (S : Type 0) : Type 0 where
  pub init : Idt → S → Bool × S
  pub exit : S → S

pub record CharDriverImpl (T S : Type 0) : Type 0 where
  pub driver : Driver S
  pub write_char : T → S → Option S
  pub write_char_indexed : ℕ → T → S → Option S
  pub read_char : S → Option (T × S)
  pub read_char_indexed : ℕ → S → Option (T × S)

pub record BlockDriverImpl (T S : Type 0) : Type 0 where
  pub driver : Driver S
  pub write_block : List T → S → Option S
  pub write_block_indexed : ℕ → List T → S → Option S
  pub read_block : ℕ → S → Option (List T × S)
  pub read_block_indexed : ℕ → ℕ → S → Option (List T × S)

pub data Access : Type 0 where
  read_only write_only read_write : Access

-- Which methods a wrapper has: those of its marker.
pub data CanRead : Access → Type 0 where
  reads : CanRead read_only
  reads_writes : CanRead read_write

pub data CanWrite : Access → Type 0 where
  writes : CanWrite write_only
  writes_reads : CanWrite read_write

pub record CharDriver (T S : Type 0) (a : Access) : Type 0 where
  pub inner_impl : CharDriverImpl T S
  pub state : S

pub record BlockDriver (T S : Type 0) (a : Access) : Type 0 where
  pub inner_impl : BlockDriverImpl T S
  pub state : S

module _ {T S : Type 0} where
  pub char_driver_new : (a : Access) → CharDriverImpl T S → S → CharDriver T S a
  char_driver_new a inner_impl state = record { inner_impl = inner_impl; state = state }

  pub block_driver_new : (a : Access) → BlockDriverImpl T S → S → BlockDriver T S a
  block_driver_new a inner_impl state = record { inner_impl = inner_impl; state = state }

  module _ {a : Access} where
    abbrev char_state : CharDriver T S a → S → CharDriver T S a
    char_state d s = record d { state = s }

    pub char_driver_init : CharDriver T S a → Idt → Bool × CharDriver T S a
    char_driver_init d idt =
        let (done, s) = d.inner_impl.driver.init idt d.state in (done, char_state d s)

    pub char_driver_exit : CharDriver T S a → CharDriver T S a
    char_driver_exit d = char_state d (d.inner_impl.driver.exit d.state)

    pub read_char : CanRead a → CharDriver T S a → Option (T × CharDriver T S a)
    read_char can d = do (char, s) ← d.inner_impl.read_char d.state; some (char, char_state d s)

    pub read_char_indexed : CanRead a → ℕ → CharDriver T S a → Option (T × CharDriver T S a)
    read_char_indexed can index d = do
      (char, s) ← d.inner_impl.read_char_indexed index d.state
      some (char, char_state d s)

    pub write_char : CanWrite a → T → CharDriver T S a → Option (CharDriver T S a)
    write_char can char d = do s ← d.inner_impl.write_char char d.state; some (char_state d s)

    pub write_char_indexed : CanWrite a → ℕ → T → CharDriver T S a → Option (CharDriver T S a)
    write_char_indexed can index char d = do
      s ← d.inner_impl.write_char_indexed index char d.state
      some (char_state d s)

    abbrev block_state : BlockDriver T S a → S → BlockDriver T S a
    block_state d s = record d { state = s }

    pub block_driver_init : BlockDriver T S a → Idt → Bool × BlockDriver T S a
    block_driver_init d idt =
        let (done, s) = d.inner_impl.driver.init idt d.state in (done, block_state d s)

    pub block_driver_exit : BlockDriver T S a → BlockDriver T S a
    block_driver_exit d = block_state d (d.inner_impl.driver.exit d.state)

    pub read_block : CanRead a → ℕ → BlockDriver T S a → Option (List T × BlockDriver T S a)
    read_block can block_size d = do
      (block, s) ← d.inner_impl.read_block block_size d.state
      some (block, block_state d s)

    pub read_block_indexed :
        CanRead a → ℕ → ℕ → BlockDriver T S a → Option (List T × BlockDriver T S a)
    read_block_indexed can index block_size d = do
      (block, s) ← d.inner_impl.read_block_indexed index block_size d.state
      some (block, block_state d s)

    pub write_block : CanWrite a → List T → BlockDriver T S a → Option (BlockDriver T S a)
    write_block can block d = do s ← d.inner_impl.write_block block d.state; some (block_state d s)

    pub write_block_indexed :
        CanWrite a → ℕ → List T → BlockDriver T S a → Option (BlockDriver T S a)
    write_block_indexed can index block d = do
      s ← d.inner_impl.write_block_indexed index block d.state
      some (block_state d s)
