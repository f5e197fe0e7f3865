-- ===== src/FileTree.antt =====
-- frontend/src/modules/file-tree/tree-utils.ts: the search of a tree and its optimistic changes. The
-- children of a node are a type of their own, beside that of the nodes.
pub mod Search
pub mod Move
mod Tests
use inkstave.Prelude.{
  Bool, true, false, ◌||◌, Option, none, some, List, if◌then◌else◌, str_eq, String,
}

pub data EntityType : Type 0 where
  folder doc file : EntityType

pub record TreeEntity : Type 0 where
  pub id : String
  pub name : String
  pub type : EntityType
  pub parent_id : Option String
  pub is_root : Bool
  pub path : String

mutual
  pub data TreeNode : Type 0 where
    node : (entity : TreeEntity) (children : TreeNodes) → TreeNode

  pub data TreeNodes : Type 0 where
    leaf : TreeNodes
    ◌▸◌ : (first : TreeNode) (rest : TreeNodes) → TreeNodes

infixr 20 ◌▸◌
abbrev pub entity_of : TreeNode → TreeEntity
entity_of (node entity children) = entity

-- `n.id === id`
abbrev pub has_id : TreeNode → String → Bool
has_id n id = str_eq (entity_of n).id id

-- `if (hit) return hit`
abbrev pub or_else : Option TreeNode → Option TreeNode → Option TreeNode
or_else none later = later
or_else (some n) later = some n

unfoldable mutual
  pub find_node : TreeNode → String → Option TreeNode
  find_node (node entity children) id =
      let below = find_among children id in
      if str_eq entity.id id then some (node entity children) else below

  pub find_among : TreeNodes → String → Option TreeNode
  find_among leaf id = none
  find_among (first ▸ rest) id =
      let hit = find_node first id in let later = find_among rest id in or_else hit later

-- `contains` of `isSelfOrDescendant`.
unfoldable mutual
  pub contains : TreeNode → String → Bool
  contains (node entity children) target = str_eq entity.id target || some_contains children target

  pub some_contains : TreeNodes → String → Bool
  some_contains leaf target = false
  some_contains (first ▸ rest) target = contains first target || some_contains rest target

unfoldable pub is_self_or_descendant : TreeNode → String → String → Bool
is_self_or_descendant root node_id target_id = elim (find_node root node_id) [
  | none ↦ false
  | some subtree ↦ contains subtree target_id
]

abbrev pub push : TreeNodes → TreeNode → TreeNodes
push leaf child = child ▸ leaf
push (first ▸ rest) child = first ▸ push rest child

unfoldable mutual
  pub add_child : TreeNode → String → TreeNode → TreeNode
  add_child (node entity children) parent_id child =
      let below = add_among children parent_id child in
      if str_eq entity.id parent_id then node entity (push children child) else node entity below

  pub add_among : TreeNodes → String → TreeNode → TreeNodes
  add_among leaf parent_id child = leaf
  add_among (first ▸ rest) parent_id child =
      add_child first parent_id child ▸ add_among rest parent_id child

-- The patch is what the spread `{ ...root, ...patch }` makes of the node.
unfoldable mutual
  pub update_node : TreeNode → String → (TreeNode → TreeNode) → TreeNode
  update_node (node entity children) id patch =
      let below = update_among children id patch in
      if str_eq entity.id id then patch (node entity children) else node entity below

  pub update_among : TreeNodes → String → (TreeNode → TreeNode) → TreeNodes
  update_among leaf id patch = leaf
  update_among (first ▸ rest) id patch = update_node first id patch ▸ update_among rest id patch

unfoldable mutual
  pub remove_node : TreeNode → String → TreeNode
  remove_node (node entity children) id = node entity (remove_among children id)

  pub remove_among : TreeNodes → String → TreeNodes
  remove_among leaf id = leaf
  remove_among (first ▸ rest) id =
      let kept = remove_node first id in
      let others = remove_among rest id in if has_id first id then others else kept ▸ others

abbrev pub with_parent : TreeNode → String → TreeNode
with_parent (node entity children) parent_id =
    node (record entity { parent_id = some parent_id }) children

unfoldable pub reparent : TreeNode → String → String → TreeNode
reparent root id new_parent_id = elim (find_node root id) [
  | none ↦ root
  | some target ↦ add_child (remove_node root id) new_parent_id (with_parent target new_parent_id)
]
