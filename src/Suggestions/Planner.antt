-- ===== src/Suggestions/Planner.antt =====
-- record.ts: the planner of one edit. The texts are lists of UTF-16 code units, and positions are
-- offsets into them. The arrays `ops` and `own` are passed along as values. `newId` is a supply of
-- ids with the number of those already taken, and `shift` is kept as the two totals whose difference
-- it is, so that it needs no negative number on the ascending changes that the editor hands over.
pub mod Within
mod Runs
pub mod Replay
pub mod Coverage
mod Walk
pub mod Order
pub mod Ascending
pub mod Gaps
pub mod Limit
mod Tests
use inkstave.Prelude.{
  ℕ, suc, ◌+◌, ◌-◌, min, max, String, Bool, true, false, Option, none, some, List, [], ◌∷◌, ◌++◌,
  map, leb, ltb, ◌&&◌, not, if◌then◌else◌, length, slice, Text, sort_by,
}
use mathlib.Core.List.{flat_map, foldl}

pub record SuggestionAuthor : Type 0 where
  pub id : String
  pub name : String

pub record TextRange : Type 0 where
  pub from : ℕ
  pub to : ℕ

pub record OwnInsertion : Type 0 where
  pub id : String
  pub from : ℕ
  pub to : ℕ
  pub created_at : String

pub record TextChange : Type 0 where
  pub from : ℕ
  pub to : ℕ
  pub insert : Text

pub data PlanOp : Type 0 where
  text_delete : (from to : ℕ) → PlanOp
  text_insert : (pos : ℕ) (text : Text) → PlanOp
  insertion_set : (id : String) (from to : ℕ) (created_at : String) → PlanOp
  insertion_remove : (id : String) → PlanOp
  deletion_add : (id : String) (pos : ℕ) (text : Text) → PlanOp

pub record PlanInput : Type 0 where
  pub changes : List TextChange
  pub own : List OwnInsertion
  pub author : Option SuggestionAuthor
  pub now : String
  pub new_id : ℕ → String
  pub removed : ℕ → ℕ → Text
  pub max_deleted_chars : Option ℕ

pub record Plan : Type 0 where
  pub ops : List PlanOp
  pub blocked : Bool

abbrev pub suggestion_text_max_chars : ℕ
suggestion_text_max_chars = 100_000

-- The limit that holds: the input's, else the default.
abbrev pub max_deleted : PlanInput → ℕ
max_deleted input = elim input.max_deleted_chars [ none ↦ suggestion_text_max_chars | some n ↦ n ]

-- The loop of `uncovered` from `position` on, with the gap after the last range.
uncovered_from : ℕ → ℕ → ℕ → List OwnInsertion → List TextRange
uncovered_from start end position [] =
    if ltb position end then record { from = position; to = end } ∷ [] else []
uncovered_from start end position (range ∷ own) =
    let covered = max range.from start in
    let skipped = uncovered_from start end position own in
    let rest = uncovered_from start end (max position (min range.to end)) own in
    if leb range.to start
    then skipped
    else if leb end range.from
    then skipped
    else if ltb position covered
    then record { from = position; to = covered } ∷ rest
    else rest

pub uncovered : List OwnInsertion → ℕ → ℕ → List TextRange
unfolding uncovered_from
uncovered own start end = uncovered_from start end start own

-- What `collapse` does with one range: the ranges that it pushes, and the operations.
collapse_range : OwnInsertion → ℕ → ℕ → List OwnInsertion × List PlanOp
collapse_range range start end =
    let size = end - start in
    let from = min range.from start in
    let to = if leb end range.to then range.to - size else start in
    if leb range.to start
    then (range ∷ [], [])
    else if leb end range.from
    then (record range { from = range.from - size; to = range.to - size } ∷ [], [])
    else if leb to from
    then ([], insertion_remove range.id ∷ [])
    else (
      record range { from = from; to = to } ∷ [],
      insertion_set range.id from to range.created_at ∷ [],
    )

pub collapse : List OwnInsertion → ℕ → ℕ → List PlanOp → List OwnInsertion × List PlanOp
unfolding collapse_range
collapse [] start end ops = ([], ops)
collapse (range ∷ own) start end ops =
    let (kept, pushed) = collapse_range range start end in
    let (result, ops') = collapse own start end (ops ++ pushed) in (kept ++ result, ops')

-- A range behind the text that went in moves.
move_range : OwnInsertion → ℕ → ℕ → OwnInsertion
move_range range pos size =
    if leb pos range.from
    then record range { from = range.from + size; to = range.to + size }
    else range

-- The loop of `grow`: the ranges, the operations, and `grown`.
pub record Grown : Type 0 where
  pub ranges : List OwnInsertion
  pub ops : List PlanOp
  pub grown : Bool

-- The test of the loop: no range has grown yet, and this one touches `pos`.
touches : Bool → OwnInsertion → ℕ → Bool
touches grown range pos = not grown && (leb range.from pos && leb pos range.to)

pub grow_ranges : List OwnInsertion → ℕ → ℕ → Bool → List PlanOp → Grown
unfolding move_range touches
grow_ranges [] pos size grown ops = record { ranges = []; ops = ops; grown = grown }
grow_ranges (range ∷ own) pos size grown ops =
    let hit = touches grown range pos in
    let to = range.to + size in
    let set = insertion_set range.id range.from to range.created_at in
    let here = if hit then record range { to = to } else move_range range pos size in
    let rest =
      grow_ranges own pos size (if hit then true else grown)
        (if hit then ops ++ set ∷ [] else ops) in
    record rest { ranges = here ∷ rest.ranges }

abbrev pub starts_after : OwnInsertion → OwnInsertion → Bool
starts_after a b = ltb b.from a.from

-- The state of the loop of `planEdit`.
pub record PlanState : Type 0 where
  pub own : List OwnInsertion
  pub ops : List PlanOp
  pub inserted : ℕ
  pub removed : ℕ
  pub deleted : ℕ
  pub taken : ℕ

-- A new insertion, kept in the order of the text.
create_insertion : PlanInput → ℕ → ℕ → PlanState → PlanState
create_insertion input pos size s =
    let id = input.new_id s.taken in
    let created : OwnInsertion = record {
      id = id;
      from = pos;
      to = pos + size;
      created_at = input.now;
    } in
    record s {
      own = sort_by starts_after (s.own ++ created ∷ []);
      ops = s.ops ++ insertion_set id pos (pos + size) input.now ∷ [];
      taken = suc s.taken;
    }

pub grow : PlanInput → ℕ → ℕ → PlanState → PlanState
unfolding grow_ranges create_insertion
grow input pos size s =
    let g = grow_ranges s.own pos size false s.ops in
    let s' = record s { own = g.ranges; ops = g.ops } in
    if g.grown
    then s'
    else elim input.author [ none ↦ s' | some author ↦ create_insertion input pos size s' ]

-- The characters of the removed text that no own insertion covers, joined.
pub kept_text : Text → ℕ → List TextRange → Text
unfolding flat_map
kept_text removed start gaps =
    flat_map (λ gap. slice (gap.from - start) (gap.to - start) removed) gaps

-- The record of a deletion, where there is a text to keep.
add_deletion : PlanInput → ℕ → Text → PlanState → PlanState
add_deletion input start text s =
    if ltb 0 (length text)
    then record s {
      ops = s.ops ++ deletion_add (input.new_id s.taken) start text ∷ [];
      deleted = s.deleted + length text;
      taken = suc s.taken;
    }
    else s

-- The branch `if (input.author)` of a removal.
pub record_deletion : PlanInput → ℕ → ℕ → TextChange → PlanState → PlanState
unfolding uncovered collapse kept_text add_deletion
record_deletion input start end change s =
    let text = kept_text (input.removed change.from change.to) start (uncovered s.own start end) in
    let (own, ops) = collapse s.own start end s.ops in
    add_deletion input start text (record s { own = own; ops = ops })

-- The removal of one change, and then its insertion.
plan_removal : PlanInput → ℕ → TextChange → PlanState → PlanState
unfolding record_deletion
plan_removal input start change s =
    let size = change.to - change.from in
    let end = start + size in
    let cut = record s { ops = s.ops ++ text_delete start end ∷ [] } in
    if ltb 0 size
    then elim input.author [ none ↦ cut | some author ↦ record_deletion input start end change cut ]
    else s

plan_insertion : PlanInput → ℕ → TextChange → PlanState → PlanState
unfolding grow
plan_insertion input start change s =
    let put = record s { ops = s.ops ++ text_insert start change.insert ∷ [] } in
    if ltb 0 (length change.insert)
    then elim input.author [
      | none ↦ put
      | some author ↦ grow input start (length change.insert) put
    ]
    else s

-- One round of the loop.
pub plan_change : PlanInput → PlanState → TextChange → PlanState
unfolding plan_removal plan_insertion
plan_change input s change =
    let start = change.from + s.inserted - s.removed in
    let s' = plan_insertion input start change (plan_removal input start change s) in
    record s' {
      inserted = s.inserted + length change.insert;
      removed = s.removed + (change.to - change.from);
    }

abbrev pub plan_start : PlanInput → PlanState
plan_start input = record {
  own = input.own;
  ops = [];
  inserted = 0;
  removed = 0;
  deleted = 0;
  taken = 0;
}

pub plan_edit : PlanInput → Plan
unfolding plan_change
plan_edit input =
    let s = foldl (plan_change input) (plan_start input) input.changes in
    if ltb (max_deleted input) s.deleted
    then record { ops = []; blocked = true }
    else record { ops = s.ops; blocked = false }
