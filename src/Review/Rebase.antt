-- ===== src/Review/Rebase.antt =====
-- hunks.ts, `rebaseHunks`: the accepted hunks, each placed against the text as it is now, and written
-- into it from the bottom up.
pub mod Apart
pub mod Placed
use mathlib.Core.List.{foldl}
use inkstave.Prelude.{
  ℕ, zero, suc, ◌+◌, ◌-◌, ◌≡◌, refl, Bool, true, false, not, Option, none, some, List, [], ◌∷◌,
  ◌++◌, map, String, Text, if◌then◌else◌, str_eq, ltb, ◌||◌, length, take, drop, sort_by, any, ℤ,
  pos, minus,
}
use inkstave.Review.Hunk.{DiffHunk, old_lines_of, new_lines_of}
use inkstave.Review.Lines.{to_lines, join}
use inkstave.Review.Locate.{locate}

pub record Planned : Type 0 where
  pub loc : ℕ
  pub old_count : ℕ
  pub new_lines : List Text
  pub id : String

pub record RebaseResult : Type 0 where
  pub target : Text
  pub applied_hunk_ids : List String
  pub blocked_hunk_ids : List String

-- The set of accepted ids, by its members.
abbrev pub has : List String → String → Bool
has accepted id = any (λ a. str_eq a id) accepted

-- `hunk.oldStart - 1`
unfoldable pub hint_of : DiffHunk → ℤ
hint_of hunk = minus (pos hunk.old_start) 1

-- The first loop: the planned hunks and the blocked ids, each in the order of the hunks.
unfoldable pub plan_hunks : List Text → List DiffHunk → List String → List Planned × List String
unfolding hint_of
plan_hunks lines [] accepted = ([], [])
plan_hunks lines (hunk ∷ hunks) accepted =
    let (planned, blocked) = plan_hunks lines hunks accepted in
    let old = old_lines_of hunk in
    if not (has accepted hunk.id)
    then (planned, blocked)
    else elim (locate lines old (hint_of hunk)) [
      | none ↦ (planned, hunk.id ∷ blocked)
      | some loc ↦ (
        record { loc = loc; old_count = length old; new_lines = new_lines_of hunk; id = hunk.id }
            ∷ planned,
        blocked,
      )
    ]

-- `planned.sort((a, b) => b.loc - a.loc)`
abbrev pub is_above : Planned → Planned → Bool
is_above a b = ltb a.loc b.loc

-- `result.splice(p.loc, p.oldCount, ...p.newLines)`
unfoldable pub splice : List Text → Planned → List Text
splice lines p = take p.loc lines ++ (p.new_lines ++ drop (p.loc + p.old_count) lines)

unfoldable pub rebase_hunks : Text → List DiffHunk → List String → RebaseResult
unfolding plan_hunks splice
rebase_hunks content hunks accepted =
    let text = to_lines content in
    let (planned, blocked) = plan_hunks text.lines hunks accepted in
    let ordered = sort_by is_above planned in
    record {
      target = join (foldl splice text.lines ordered) text.trailing_newline;
      applied_hunk_ids = map (λ p. p.id) ordered;
      blocked_hunk_ids = blocked;
    }
