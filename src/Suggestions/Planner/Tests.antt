-- ===== src/Suggestions/Planner/Tests.antt =====
-- A session of one author on a short text: runs of the planner, and the theorems at this input.
use mathlib.Core.List.{foldl}
use inkstave.Prelude.{
  ℕ, zero, suc, ◌≤◌, ◌≡◌, refl, true, none, some, List, [], ◌∷◌, arith, String, Text, codes, slice,
}
use inkstave.Suggestions.Planner.{
  SuggestionAuthor, OwnInsertion, TextChange, text_delete, text_insert, insertion_set, deletion_add,
  PlanInput, uncovered, collapse, grow, plan_change, plan_start, plan_edit,
}
use inkstave.Suggestions.Planner.Replay.{changed, plan_edit-Runs}
use inkstave.Suggestions.Planner.Runs.{Runs}
use inkstave.Suggestions.Planner.Order.{
  LeftByEdits-IsOrderedFrom, edited, untouched, IsOrderedFrom, plan_change-IsOrderedFrom,
}
use inkstave.Suggestions.Planner.Coverage.{covered, covered-collapse, covered-grow}
use inkstave.Suggestions.Planner.Limit.{kept_size, plan_edit-limit}

abbrev old : Text
old = codes "one two three"

abbrev ann : SuggestionAuthor
ann = record { id = "u1"; name = "Ann" }

abbrev own_two : List OwnInsertion
own_two =
    record { id = "a"; from = 0; to = 3; created_at = "t0" }
    ∷ record { id = "b"; from = 8; to = 10; created_at = "t1" }
    ∷ []

-- Replaces "e tw" by "XY".
abbrev edit : TextChange
edit = record { from = 2; to = 6; insert = codes "XY" }

abbrev input : PlanInput
input = record {
  changes = edit ∷ [];
  own = own_two;
  author = some ann;
  now = "t2";
  new_id = λ k. if_zero k;
  removed = λ from to. slice from to old;
  max_deleted_chars = none;
}
  where
    if_zero : ℕ → String
    if_zero zero = "n0"
    if_zero (suc k) = "n1"

-- The own "e" goes without a record, " tw" is kept, and "XY" joins the insertion that it touches.
plan_edit_run :
    (plan_edit input).ops
    ≡ text_delete 2 6
      ∷ insertion_set "a" 0 2 "t0"
      ∷ deletion_add "n0" 2 (codes " tw")
      ∷ text_insert 2 (codes "XY")
      ∷ insertion_set "a" 0 4 "t0"
      ∷ []
unfolding plan_edit
plan_edit_run = refl

plain : PlanInput
plain = record input { author = none }

plan_edit-Runs_example : Runs (plan_edit input).ops old (changed 0 (edit ∷ []) old)
plan_edit-Runs_example =
    plan_edit-Runs input old (omega arith) (omega arith) (unfold plan_edit in refl)

plan_change-IsOrderedFrom_example : IsOrderedFrom 0 (plan_change input (plan_start input) edit).own
plan_change-IsOrderedFrom_example =
    plan_change-IsOrderedFrom input (plan_start input) edit (omega arith)

covered-collapse_example : covered 4 (collapse own_two 2 6 []).0 ≡ covered 8 own_two
covered-collapse_example = covered-collapse 4 2 6 own_two [] (omega arith)

-- The first edit of a session types "one", the next one starts with the insertion that it left.
abbrev first_edit : PlanInput
first_edit = record input {
  changes = record { from = 0; to = 0; insert = codes "one" } ∷ [];
  own = [];
}

abbrev next_edit : PlanInput
next_edit = record input {
  own = (foldl (plan_change first_edit) (plan_start first_edit) first_edit.changes).own;
}

covered-grow_example :
    covered 4 (grow next_edit 3 2 (plan_change next_edit (plan_start next_edit) edit)).own ≡ true
unfolding plan_change
covered-grow_example =
    covered-grow 4 3 2 next_edit (edit ∷ []) ann refl (omega arith)
      (LeftByEdits-IsOrderedFrom (edited first_edit untouched))

-- Two insertions that overlap: the second one does not count twice.
abbrev overlapping : List OwnInsertion
overlapping =
    record { id = "a"; from = 1; to = 4; created_at = "t0" }
    ∷ record { id = "b"; from = 3; to = 6; created_at = "t1" }
    ∷ []

uncovered-overlapping :
    uncovered overlapping 0 8 ≡ record { from = 0; to = 1 } ∷ record { from = 6; to = 8 } ∷ []
unfolding uncovered
uncovered-overlapping = refl

plan_edit-limit_example :
    (kept_size (plan_edit input).ops ≤ 100_000)
    × ((plan_edit input).blocked ≡ true → (plan_edit input).ops ≡ [])
plan_edit-limit_example = plan_edit-limit input
