-- ===== src/Containers/LinkedList.antt =====
-- src/data_structures/linked_list.rs: a list is its first node.
use leaf_os.Common.{sym, ap, ◌≡◌, refl, List, [], ◌∷◌}

module _ (T : Type 0) where
  mutual
    pub data LinkedListNode : Type 0 where
      node : T → Next → LinkedListNode

    -- `Option<LinkedListNode<T>>` in its box.
    pub data Next : Type 0 where
      absent : Next
      present : LinkedListNode → Next

  -- `LinkedList` is transparent: its methods are those of its first node.
  pub record LinkedList : Type 0 where
    pub first : LinkedListNode

module _ {T : Type 0} where
  unfoldable pub node_new : T → LinkedListNode T
  node_new val = node val absent

  abbrev pub value : LinkedListNode T → T
  value (node val next) = val

  abbrev pub next : LinkedListNode T → Next T
  next (node val n) = n

  -- The new object and the old value.
  pub set_value : LinkedListNode T → T → LinkedListNode T × T
  set_value (node old n) val = (node val n, old)

  -- `Option::replace`: the new object and the old next node.
  unfoldable pub replace_next_raw : LinkedListNode T → LinkedListNode T → LinkedListNode T × Next T
  replace_next_raw (node val n) other = (node val (present other), n)

  unfoldable pub replace_next : LinkedListNode T → T → LinkedListNode T × Next T
  replace_next self val = replace_next_raw self (node_new val)

  pub to_list : LinkedListNode T → LinkedList T
  to_list n = record { first = n }

  pub list_new : T → LinkedList T
  list_new val = to_list (node_new val)

  pub list_set_value : LinkedList T → T → LinkedList T × T
  list_set_value l val = let (n, old) = set_value l.first val in (record { first = n }, old)

  abbrev pub list_value : LinkedList T → T
  list_value l = value l.first

  abbrev pub list_next : LinkedList T → Next T
  list_next l = next l.first

  mutual
    -- The values from a node on.
    pub values : LinkedListNode T → List T
    values (node val n) = val ∷ values_from n

    pub values_from : Next T → List T
    values_from absent = []
    values_from (present n) = values n

  -- A node put behind a node takes the rest of its list with it, and the old rest is returned; a
  -- value alone becomes the last one. Put back, the old node restores the list.
  pub replace_next-values :
      (self other : LinkedListNode T) (val : T)
      → (values (replace_next_raw self other).0 ≡ value self ∷ values other)
        × ((replace_next_raw self other).1 ≡ next self)
        × (values (replace_next self val).0 ≡ value self ∷ val ∷ [])
        × ((old : LinkedListNode T)
            → next self ≡ present old
            → (replace_next_raw (replace_next_raw self other).0 old).0 ≡ self)
  unfolding replace_next_raw replace_next node_new values values_from
  replace_next-values (node v n) other val =
      (refl, refl, refl, λ old e. ap (λ n'. node v n') (sym e))
