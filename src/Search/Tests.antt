-- ===== src/Search/Tests.antt =====
-- The search of a short text.
use inkstave.Prelude.{
  ℕ, ◌≡◌, refl, true, Option, none, some, List, [], ◌∷◌, Text, codes, text_eq, arith,
}
use inkstave.Edits.{Edit}
use inkstave.Crdt.{plain_text}
use inkstave.Crdt.Apply.{apply_splices_to_ytext}
use inkstave.Search.Find.{Found, TextMatch, find_matches}
use inkstave.Search.Expand.{expand_replacement}
use inkstave.Search.Expand.Escape.{escape, expand-escape}
use inkstave.Search.Replace.{replacement_edits, apply_edits, relocate}
use inkstave.Search.Replace.Edits.{apply_splices-apply_edits}
use inkstave.Search.Replace.WholeText.{whole_template, replace_in_place, replace_by_itself}

-- "ab" on each of two lines.
abbrev two_lines : Text
two_lines = 97 ∷ 98 ∷ 10 ∷ 97 ∷ 98 ∷ []

abbrev hit : ℕ → Found
hit i = record { whole = codes "ab"; index = i; groups = some (codes "b") ∷ []; named = [] }

abbrev engine : Text → List Found
engine t = hit 0 ∷ hit 3 ∷ []

abbrev no_inherited : Text → Option Text
no_inherited name = none

abbrev match : TextMatch
match = record {
  from = 3;
  to = 5;
  line = 2;
  column = 0;
  text = codes "ab";
  groups = some (codes "b") ∷ [];
  named = [];
  line_text = codes "ab";
}

expand-escape_example :
    expand_replacement no_inherited (escape (codes "a$1")) match true ≡ codes "a$1"
expand-escape_example = expand-escape no_inherited match (codes "a$1")

abbrev edits : List (Edit ℕ)
edits =
    record { from = 0; to = 2; insert = codes "x" } ∷ record { from = 3; to = 5; insert = [] } ∷ []

apply_splices-apply_edits_example :
    apply_splices_to_ytext plain_text two_lines edits ≡ apply_edits two_lines edits
apply_splices-apply_edits_example = apply_splices-apply_edits plain_text two_lines edits (
  (omega arith, omega arith, (omega arith, omega arith, omega arith)),
  (omega arith, (omega arith, tt)),
)

replace_in_place_example :
    apply_splices_to_ytext plain_text two_lines
      (replacement_edits no_inherited (find_matches two_lines engine none) (codes "$1") true)
    ≡ apply_edits two_lines
        (replacement_edits no_inherited (find_matches two_lines engine none) (codes "$1") true)
replace_in_place_example =
    replace_in_place no_inherited plain_text two_lines engine none (codes "$1") true
      (omega arith, refl, (omega arith, refl, omega arith))

replace_by_itself_example :
    apply_edits two_lines
      (replacement_edits no_inherited (find_matches two_lines engine none) whole_template true)
    ≡ two_lines
replace_by_itself_example =
    replace_by_itself no_inherited two_lines none engine
      (omega arith, refl, (omega arith, refl, omega arith))

relocate_found : relocate (match ∷ []) (record match { from = 9; to = 11 }) [] ≡ some match
unfolding relocate text_eq
relocate_found = refl
