-- ===== src/FileTree/Tests.antt =====
-- A root with a folder and a document.
use inkstave.Prelude.{◌≡◌, refl, true, false, none, String}
use inkstave.FileTree.{
  EntityType, TreeEntity, TreeNode, node, leaf, ◌▸◌, find_node, contains, remove_node, reparent,
}
use inkstave.FileTree.Move.{contains-reparent}

abbrev entity : String → EntityType → TreeEntity
entity id type = record {
  id = id;
  name = id;
  type = type;
  parent_id = none;
  is_root = false;
  path = id;
}

abbrev document : TreeNode
document = node (entity "d" EntityType.doc) leaf

abbrev sections : TreeNode
sections = node (entity "s" EntityType.folder) leaf

abbrev root : TreeNode
root = node (entity "r" EntityType.folder) (sections ▸ document ▸ leaf)

contains-reparent_example : contains (reparent root "d" "s") "d" ≡ true
unfolding find_node contains remove_node
contains-reparent_example = contains-reparent root document "d" "s" refl refl
