-- ===== src/Review/Tests.antt =====
-- A review of a text of three lines.
use mathlib.Core.List.{Perm}
use inkstave.Prelude.{
  ℕ, ◌+◌, ◌≤◌, ◌≡◌, ◌≢◌, refl, none, some, [], ◌∷◌, ◌++◌, length, Text, codes, text_eq, arith, pos,
  dist, List, String,
}
use inkstave.Review.Hunk.{LineType, DiffHunk}
use inkstave.Review.MinimalEdit.{MinimalEdit, minimal_edit}
use inkstave.Review.MinimalEdit.Minimal.{minimal_edit-minimal, minimal_edit-within}
use inkstave.Review.Locate.{locate}
use inkstave.Review.Locate.Occurs.{OccursAt}
use inkstave.Review.Locate.Nearest.{locate-nearest, locate_far}
use inkstave.Review.Rebase.{rebase_hunks}
use inkstave.Review.Rebase.Placed.{accepted_ids, rebase_hunks-perm}

abbrev a : Text
a = codes "a"

abbrev b : Text
b = codes "b"

-- The lines "a", "b" and "a", with a last newline.
abbrev content : Text
content = 97 ∷ 10 ∷ 98 ∷ 10 ∷ 97 ∷ 10 ∷ []

-- Line 2, "b", becomes "a" twice.
abbrev hunk : DiffHunk
hunk = record {
  id = "h1";
  header = [];
  old_start = 2;
  old_lines = 1;
  new_start = 2;
  new_lines = 2;
  lines =
      record { type = LineType.del; text = b }
      ∷ record { type = LineType.add; text = a }
      ∷ record { type = LineType.add; text = a }
      ∷ [];
}

abbrev whole : MinimalEdit
whole = record { start = 0; delete_length = 3; insert = codes "axc" }

minimal_edit-minimal_example :
    ((minimal_edit (codes "abc") (codes "axc")).delete_length ≤ 3)
    × (length (minimal_edit (codes "abc") (codes "axc")).insert ≤ 3)
minimal_edit-minimal_example =
    minimal_edit-minimal (codes "abc") (codes "axc") whole (omega arith) refl

minimal_edit-within_example :
    (minimal_edit (codes "abc") (codes "axc")).start
      + (minimal_edit (codes "abc") (codes "axc")).delete_length
    ≤ 3
minimal_edit-within_example = minimal_edit-within (codes "abc") (codes "axc")

some_a : a ∷ [] ≢ []
some_a h = cc

located : locate (a ∷ b ∷ a ∷ []) (a ∷ []) (pos 2) ≡ some 2
unfolding locate text_eq
located = refl

locate-nearest_example :
    OccursAt (a ∷ b ∷ a ∷ []) (a ∷ []) 2
    × (dist (pos 2) 2 ≤ 3)
    × ((other : ℕ) → OccursAt (a ∷ b ∷ a ∷ []) (a ∷ []) other → dist (pos 2) 2 ≤ dist (pos 2) other)
locate-nearest_example = locate-nearest (a ∷ b ∷ a ∷ []) (a ∷ []) (pos 2) some_a 2 located

missed : locate (a ∷ b ∷ a ∷ []) (a ∷ []) (pos 9) ≡ none
unfolding locate text_eq
missed = refl

locate_far_example : locate (a ∷ b ∷ a ∷ []) (a ∷ []) (pos 9) ≡ none
locate_far_example = locate_far (a ∷ b ∷ a ∷ []) (a ∷ []) (pos 9) some_a 9 refl (omega arith)

-- The first line goes.
abbrev first_hunk : DiffHunk
first_hunk = record {
  id = "h0";
  header = [];
  old_start = 1;
  old_lines = 1;
  new_start = 1;
  new_lines = 0;
  lines = record { type = LineType.del; text = a } ∷ [];
}

abbrev two_hunks : List DiffHunk
two_hunks = first_hunk ∷ hunk ∷ []

abbrev both_ids : List String
both_ids = "h0" ∷ "h1" ∷ []

rebase_hunks-perm_example :
    Perm
      ((rebase_hunks content (hunk ∷ []) ("h1" ∷ [])).applied_hunk_ids
        ++ (rebase_hunks content (hunk ∷ []) ("h1" ∷ [])).blocked_hunk_ids)
      (accepted_ids (hunk ∷ []) ("h1" ∷ []))
rebase_hunks-perm_example = rebase_hunks-perm content (hunk ∷ []) ("h1" ∷ [])
