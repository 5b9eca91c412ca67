-- ===== src/Containers.antt =====
-- The containers of src/data_structures. A method that changes its object returns the new object
-- with its result; a box is what it holds.
pub mod LinkedList
pub mod DoublyLinkedList
pub mod RingBuffer
mod Tests
