-- ===== src/ProjectIndex/Includes.antt =====
-- frontend/src/modules/project-index/resolve-includes.ts: the structure of a project in the order that LaTeX
-- reads it. `trim` of a string is a parameter. The recursion of `visit` has fuel.
pub mod Unseen
pub mod Fuel
mod Tests
use inkstave.Prelude.{
  ℕ, zero, suc, Bool, true, false, not, ◌||◌, Option, none, some, List, [], ◌∷◌, ◌++◌, map, String,
  Text, codes, text_eq, if◌then◌else◌, str_eq, any, length, take, drop,
}

-- Of a structure item what this code reads, and the rest of it.
pub record StructureItem : Type 0 where
  pub is_include : Bool
  pub target : Option Text
  pub details : Text

pub record IndexedDoc : Type 0 where
  pub id : String
  pub path : Text
  pub items : List StructureItem

pub record ResolvedItem : Type 0 where
  pub item : StructureItem
  pub doc_id : String
  pub path : Text

abbrev pub find_doc : List IndexedDoc → String → Option IndexedDoc
find_doc [] id = none
find_doc (doc ∷ docs) id = if str_eq doc.id id then some doc else find_doc docs id

-- `byPath`: of the documents with one path the last one.
abbrev pub by_path : List IndexedDoc → Text → Option IndexedDoc
by_path [] path = none
by_path (doc ∷ docs) path = elim (by_path docs path) [
  | some later ↦ some later
  | none ↦ if text_eq doc.path path then some doc else none
]

abbrev pub or_next {ℓ} : {A : Type ℓ} → Option A → Option A → Option A
or_next none next = next
or_next (some a) next = some a

abbrev pub or_empty : Option Text → Text
or_empty none = []
or_empty (some text) = text

abbrev pub find_main : List IndexedDoc → Option String → Option IndexedDoc
find_main docs none = none
find_main docs (some id) = find_doc docs id

-- `replace(/^\.\//, "")`
abbrev pub drop_dot_slash : Text → Text
drop_dot_slash path = if text_eq (take 2 path) (codes "./") then drop 2 path else path

abbrev pub is_seen : List String → String → Bool
is_seen seen id = any (λ other. str_eq other id) seen

-- The variables of `resolveIncludes` that `visit` changes.
pub record Visited : Type 0 where
  pub seen : List String
  pub resolved : List ResolvedItem

abbrev pub place_item : IndexedDoc → StructureItem → Visited → Visited
place_item doc item v = record v {
  resolved = v.resolved ++ record { item = item; doc_id = doc.id; path = doc.path } ∷ [];
}

module _ (trim : Text → Text) (docs : List IndexedDoc) where
  abbrev pub candidate_paths : Text → List Text
  candidate_paths target =
      let path = drop_dot_slash (trim target) in path ∷ (path ++ codes ".tex") ∷ []

  -- The first candidate that is the path of a document.
  abbrev pub first_doc : List Text → Option IndexedDoc
  first_doc [] = none
  first_doc (path ∷ paths) = or_next (by_path docs path) (first_doc paths)

  abbrev pub target_of : StructureItem → Option IndexedDoc
  target_of item = first_doc (candidate_paths (or_empty item.target))

  -- What becomes of an include, with what a visit of a document does.
  abbrev pub follow : (IndexedDoc → Visited → Visited) → Option IndexedDoc → Visited → Visited
  follow go none v = v
  follow go (some doc) v = go doc v

  -- The loop over the items of a document.
  abbrev pub visit_items :
      (IndexedDoc → Visited → Visited) → IndexedDoc → List StructureItem → Visited → Visited
  visit_items go doc [] v = v
  visit_items go doc (item ∷ items) v =
      visit_items go doc items
        (if item.is_include then follow go (target_of item) v else place_item doc item v)

  unfoldable pub visit : ℕ → IndexedDoc → Visited → Visited
  visit zero doc v = v
  visit (suc fuel) doc v =
      let next = visit_items (visit fuel) doc doc.items (record v { seen = doc.id ∷ v.seen }) in
      if is_seen v.seen doc.id then v else next

  -- `resolveIncludes`, with more fuel than there are documents.
  unfoldable pub resolve_includes : Option String → List ResolvedItem
  unfolding visit
  resolve_includes main_doc_id =
      (follow (visit (suc (length docs))) (find_main docs main_doc_id)
        (record { seen = []; resolved = [] })).resolved
