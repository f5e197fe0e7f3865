-- ===== src/FileTree/Move.antt =====
-- tree-utils.ts, `removeNode` and `reparent`.
use inkstave.Prelude.{
  ◌≡◌, refl, ap, ap₂, true, false, some, String, str_eq, arith, Bool-cases, inl, inr,
}
use inkstave.FileTree.{
  TreeNode, TreeNodes, node, leaf, ◌▸◌, has_id, find_node, contains, some_contains, push, add_child,
  add_among, remove_node, remove_among, with_parent, reparent,
}
use inkstave.FileTree.Search.{has_id-find_node}

mutual
  unfolding contains remove_node

  removed_node :
      (n : TreeNode) (id : String) → has_id n id ≡ false → contains (remove_node n id) id ≡ false
  removed_node (node entity children) id h = rw h (removed_among children id)

  removed_among : (ns : TreeNodes) (id : String) → some_contains (remove_among ns id) id ≡ false
  removed_among leaf id = refl
  removed_among (first ▸ rest) id = elim (Bool-cases (has_id first id)) [
    | inl e ↦ rw e (removed_among rest id)
    | inr e ↦ rw e (rw (removed_node first id e) (removed_among rest id))
  ]

-- After a removal no node of the tree has the id, if the root has another one.
pub contains-remove_node :
    (root : TreeNode) (id : String)
    → has_id root id ≡ false
    → contains (remove_node root id) id ≡ false
contains-remove_node root id h = removed_node root id h

some_contains-push :
    (ns : TreeNodes) (child : TreeNode) (id : String)
    → contains child id ≡ true
    → some_contains (push ns child) id ≡ true
unfolding contains
some_contains-push leaf child id h = rw h
some_contains-push (first ▸ rest) child id h = ground (arith, some_contains-push rest child id h)

module _ (parent_id id : String) (child : TreeNode) (there : contains child id ≡ true) where
  mutual
    unfolding contains add_child

    added_node :
        (n : TreeNode)
        → contains n parent_id ≡ true
        → contains (add_child n parent_id child) id ≡ true
    added_node (node entity children) h = elim (Bool-cases (str_eq entity.id parent_id)) [
      | inl e ↦ rw e (ground (arith, some_contains-push children child id there))
      | inr e ↦ rw e (ground (arith, added_among children (rw e at h)))
    ]

    added_among :
        (ns : TreeNodes)
        → some_contains ns parent_id ≡ true
        → some_contains (add_among ns parent_id child) id ≡ true
    added_among leaf h = ground arith
    added_among (first ▸ rest) h = ground (arith, added_node first, added_among rest)

contains-with_parent :
    (n : TreeNode) (id parent_id : String)
    → has_id n id ≡ true
    → contains (with_parent n parent_id) id ≡ true
unfolding contains
contains-with_parent (node entity children) id parent_id h = rw h

-- A node that is found, moved to a folder that is still there without it, is in the tree afterwards.
pub contains-reparent :
    (root target : TreeNode) (id new_parent_id : String)
    → find_node root id ≡ some target
    → contains (remove_node root id) new_parent_id ≡ true
    → contains (reparent root id new_parent_id) id ≡ true
unfolding reparent
contains-reparent root target id new_parent_id h k =
    rw (h, reparent)
      (added_node new_parent_id id (with_parent target new_parent_id)
        (contains-with_parent target id new_parent_id (has_id-find_node root target id h))
        (remove_node root id) k)

mutual
  unfolding contains add_child

  absent_node :
      (n : TreeNode) (parent_id : String) (child : TreeNode)
      → contains n parent_id ≡ false
      → add_child n parent_id child ≡ n
  absent_node (node entity children) parent_id child h =
      elim (Bool-cases (str_eq entity.id parent_id)) [
        | inl e ↦ ground (arith, rw e at h)
        | inr e ↦ rw e (ap (node entity) (absent_among children parent_id child (rw e at h)))
      ]

  absent_among :
      (ns : TreeNodes) (parent_id : String) (child : TreeNode)
      → some_contains ns parent_id ≡ false
      → add_among ns parent_id child ≡ ns
  absent_among leaf parent_id child h = refl
  absent_among (first ▸ rest) parent_id child h =
      ap₂ (λ a b. a ▸ b) (absent_node first parent_id child (ground (arith, h)))
        (absent_among rest parent_id child (ground (arith, h)))

-- A node moved to a folder that is not there without it, such as one below itself, is lost.
pub reparent-remove_node :
    (root target : TreeNode) (id new_parent_id : String)
    → find_node root id ≡ some target
    → contains (remove_node root id) new_parent_id ≡ false
    → reparent root id new_parent_id ≡ remove_node root id
unfolding reparent
reparent-remove_node root target id new_parent_id h k =
    rw (h, reparent)
      (absent_node (remove_node root id) new_parent_id (with_parent target new_parent_id) k)
