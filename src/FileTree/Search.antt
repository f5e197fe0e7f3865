-- ===== src/FileTree/Search.antt =====
-- tree-utils.ts, `findNode`.
use inkstave.Prelude.{
  ◌≡◌, refl, sym, ap, ap₂, ◌∙◌, ◌⊎◌, Bool, true, false, ◌||◌, Option, none, some, String, str_eq,
  arith, Bool-cases, inl, inr,
}
use inkstave.FileTree.{
  TreeNode, TreeNodes, node, leaf, ◌▸◌, has_id, or_else, find_node, find_among, contains,
  some_contains,
}

abbrev pub found : Option TreeNode → Bool
found none = false
found (some n) = true

found-or_else : (a b : Option TreeNode) → found (or_else a b) ≡ (found a || found b)
found-or_else none b = refl
found-or_else (some n) b = refl

or_else_cases :
    (a b : Option TreeNode) (m : TreeNode) → or_else a b ≡ some m → (a ≡ some m) ⊎ (b ≡ some m)
or_else_cases none b m h = inr h
or_else_cases (some n) b m h = inl h

mutual
  unfolding find_node contains

  found_node : (n : TreeNode) (id : String) → found (find_node n id) ≡ contains n id
  found_node (node entity children) id = elim (Bool-cases (str_eq entity.id id)) [
    | inl e ↦ rw e
    | inr e ↦ rw e (found_among children id)
  ]

  found_among : (ns : TreeNodes) (id : String) → found (find_among ns id) ≡ some_contains ns id
  found_among leaf id = refl
  found_among (first ▸ rest) id =
      found-or_else (find_node first id) (find_among rest id)
      ∙ ap₂ (λ a b. a || b) (found_node first id) (found_among rest id)

-- The search finds a node with the id wherever the tree has one, and only there.
pub found-find_node : (root : TreeNode) (id : String) → found (find_node root id) ≡ contains root id
found-find_node root id = found_node root id

some-inj : {n m : TreeNode} → some n ≡ some m → n ≡ m
some-inj h = cc

mutual
  unfolding find_node

  find_node_id : (n m : TreeNode) (id : String) → find_node n id ≡ some m → has_id m id ≡ true
  find_node_id (node entity children) m id h = elim (Bool-cases (str_eq entity.id id)) [
    | inl e ↦ sym (ap (λ n. has_id n id) (some-inj (rw e at h))) ∙ e
    | inr e ↦ find_among_id children m id (rw e at h)
  ]

  find_among_id :
      (ns : TreeNodes) (m : TreeNode) (id : String) → find_among ns id ≡ some m → has_id m id ≡ true
  find_among_id leaf m id h = ground arith
  find_among_id (first ▸ rest) m id h =
      elim (or_else_cases (find_node first id) (find_among rest id) m h) [
        | inl e ↦ find_node_id first m id e
        | inr e ↦ find_among_id rest m id e
      ]

pub has_id-find_node : (n m : TreeNode) (id : String) → find_node n id ≡ some m → has_id m id ≡ true
has_id-find_node n m id h = find_node_id n m id h
