-- ===== src/ProjectIndex/Includes/Tests.antt =====
-- Two documents that include each other.
use inkstave.Prelude.{suc, ◌+◌, ◌≡◌, refl, inl, true, some, List, [], ◌∷◌, Text, codes, length}
use inkstave.ProjectIndex.Includes.{StructureItem, IndexedDoc, Visited, visit}
use inkstave.ProjectIndex.Includes.Fuel.{visit-fuel}

abbrev include_of : Text → StructureItem
include_of path = record { is_include = true; target = some path; details = [] }

abbrev main_tex : IndexedDoc
main_tex = record { id = "m"; path = codes "main.tex"; items = include_of (codes "./part") ∷ [] }

abbrev part_tex : IndexedDoc
part_tex = record { id = "p"; path = codes "part.tex"; items = include_of (codes "main.tex") ∷ [] }

abbrev nothing_yet : Visited
nothing_yet = record { seen = []; resolved = [] }

abbrev both : List IndexedDoc
both = main_tex ∷ part_tex ∷ []

visit-fuel_example :
    visit (λ t. t) both (suc (length both)) main_tex nothing_yet
    ≡ visit (λ t. t) both (suc (length both) + 4) main_tex nothing_yet
visit-fuel_example = visit-fuel (λ t. t) both 4 main_tex nothing_yet (inl refl)
