-- ===== src/Containers/Tests.antt =====
-- Runs of src/data_structures.
use leaf_os.Common.{ℕ, ◌≡◌, refl}
use leaf_os.Containers.LinkedList.{
  LinkedListNode, node, absent, present, node_new, replace_next, replace_next_raw,
}
use leaf_os.Containers.DoublyLinkedList.{DoublyLinkedListNode, replace_last}
use leaf_os.Containers.DoublyLinkedList

abbrev one_two : LinkedListNode ℕ
one_two = node 1 (present (node 2 absent))

abbrev three : LinkedListNode ℕ
three = node 3 absent

one_three : (replace_next_raw one_two three).0 ≡ node 1 (present (node 3 absent))
unfolding replace_next_raw
one_three = refl

one_nine : (replace_next one_two 9).0 ≡ node 1 (present (node 9 absent))
unfolding replace_next replace_next_raw node_new
one_nine = refl

abbrev lone : DoublyLinkedListNode ℕ
lone = DoublyLinkedList.node 1 DoublyLinkedList.absent DoublyLinkedList.absent

-- The node put in front of another one is not linked back to it.
not_linked_back :
    (replace_last lone 0).0
    ≡ DoublyLinkedList.node 1
        (DoublyLinkedList.present
          (DoublyLinkedList.node 0 DoublyLinkedList.absent DoublyLinkedList.absent))
        DoublyLinkedList.absent
unfolding replace_last DoublyLinkedList.replace_last_raw DoublyLinkedList.node_new
not_linked_back = refl
