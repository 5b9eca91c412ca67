-- ===== src/Containers/DoublyLinkedList.antt =====
-- src/data_structures/doubly_linked_list.rs: a node owns the ones on both of its sides.
use leaf_os.Common.{◌≡◌, refl}

module _ (T : Type 0) where
  mutual
    pub data DoublyLinkedListNode : Type 0 where
      -- The value, the last node and the next one.
      node : T → Link → Link → DoublyLinkedListNode

    pub data Link : Type 0 where
      absent : Link
      present : DoublyLinkedListNode → Link

  -- `DoublyLinkedList` is transparent: its methods are those of its first node.
  pub record DoublyLinkedList : Type 0 where
    pub first : DoublyLinkedListNode

module _ {T : Type 0} where
  unfoldable pub node_new : T → DoublyLinkedListNode T
  node_new val = node val absent absent

  abbrev pub value : DoublyLinkedListNode T → T
  value (node val l n) = val

  abbrev pub last : DoublyLinkedListNode T → Link T
  last (node val l n) = l

  abbrev pub next : DoublyLinkedListNode T → Link T
  next (node val l n) = n

  pub set_value : DoublyLinkedListNode T → T → DoublyLinkedListNode T × T
  set_value (node old l n) val = (node val l n, old)

  unfoldable pub replace_next_raw :
      DoublyLinkedListNode T → DoublyLinkedListNode T → DoublyLinkedListNode T × Link T
  replace_next_raw (node val l n) other = (node val l (present other), n)

  unfoldable pub replace_next : DoublyLinkedListNode T → T → DoublyLinkedListNode T × Link T
  replace_next self val = replace_next_raw self (node_new val)

  unfoldable pub replace_last_raw :
      DoublyLinkedListNode T → DoublyLinkedListNode T → DoublyLinkedListNode T × Link T
  replace_last_raw (node val l n) other = (node val (present other) n, l)

  unfoldable pub replace_last : DoublyLinkedListNode T → T → DoublyLinkedListNode T × Link T
  replace_last self val = replace_last_raw self (node_new val)

  pub to_list : DoublyLinkedListNode T → DoublyLinkedList T
  to_list n = record { first = n }

  pub list_new : T → DoublyLinkedList T
  list_new val = to_list (node_new val)

  pub list_set_value : DoublyLinkedList T → T → DoublyLinkedList T × T
  list_set_value l val = let (n, old) = set_value l.first val in (record { first = n }, old)

  abbrev pub list_value : DoublyLinkedList T → T
  list_value l = value l.first

  abbrev pub list_next : DoublyLinkedList T → Link T
  list_next l = next l.first

  -- The two sides of a node are apart: replacing one returns what was there and keeps the value
  -- and the other side, in either order. The node put on a side keeps its own links: a value put
  -- there is not linked back.
  pub replace-sides :
      (self before after : DoublyLinkedListNode T) (val : T)
      → ((replace_next_raw (replace_last_raw self before).0 after).0
          ≡ (replace_last_raw (replace_next_raw self after).0 before).0)
        × ((replace_next_raw (replace_last_raw self before).0 after).0
            ≡ node (value self) (present before) (present after))
        × ((replace_last_raw self before).1 ≡ last self)
        × ((replace_next_raw self after).1 ≡ next self)
        × (next (replace_next self val).0 ≡ present (node val absent absent))
        × (last (replace_last self val).0 ≡ present (node val absent absent))
  unfolding replace_last_raw replace_next_raw replace_next replace_last node_new
  replace-sides (node v l n) before after val = (refl, refl, refl, refl, refl, refl)
