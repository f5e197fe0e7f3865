-- ===== src/Review/Inline.antt =====
-- frontend/src/modules/diff-review: the review of a proposal inside the text. inline-review-model.ts has
-- the hunks with their decisions, inline-review-extension.ts the field that holds them. The range of a
-- hunk in the editor, its widgets and the keys are left out; what an edit of the text does to a position
-- is an argument.
pub mod Outcome
pub mod NextOpen
pub mod Actions
mod Tests
use mathlib.Core.List.{foldl}
use inkstave.Prelude.{
  ℕ, zero, suc, ◌+◌, ◌-◌, ◌%◌, min, Bool, true, false, not, ◌&&◌, ◌||◌, Option, none, some, List,
  [], ◌∷◌, map, String, Text, if◌then◌else◌, str_eq, ltb, length, get_elem?, all, filter_by, ℤ, pos,
  negsuc,
}
use inkstave.Review.Hunk.{DiffHunk, old_lines_of}
use inkstave.Review.Locate.{locate}
use inkstave.Review.Rebase.{hint_of}

pub data Decision : Type 0 where
  undecided accepted rejected stale : Decision

pub record ReviewHunk : Type 0 where
  pub hunk : DiffHunk
  pub decision : Decision
  pub blocked : Bool
  pub busy : Bool
  pub line : ℕ

pub record InlineReview : Type 0 where
  pub proposal_id : String
  pub path : Text
  pub read_only : Bool
  pub active : ℕ
  pub hunks : List ReviewHunk

pub record DecisionLists : Type 0 where
  pub accepted_ids : List String
  pub rejected_ids : List String
  pub stale_ids : List String

-- `decision === "open"`
abbrev pub is_undecided : Decision → Bool
is_undecided undecided = true
is_undecided _ = false

unfoldable pub place_hunk : List Text → DiffHunk → ℤ → Option ℕ
place_hunk lines hunk hint = locate lines (old_lines_of hunk) hint

-- `Math.max(0, Math.min(hint, last))`
abbrev pub clamp : ℤ → ℕ → ℕ
clamp (pos hint) last = min hint last
clamp (negsuc hint) last = 0

-- The line and whether the hunk is blocked. A text has at least one line.
unfoldable pub display_line : List Text → DiffHunk → ℤ → ℕ × Bool
unfolding place_hunk
display_line lines hunk hint =
    let last = length lines - 1 in
    elim (place_hunk lines hunk hint) [
      | none ↦ (clamp hint last, true)
      | some found ↦ (min found last, false)
    ]

unfoldable pub pending_hunks : List ReviewHunk → List ReviewHunk
pending_hunks hunks = filter_by (λ h. is_undecided h.decision) hunks

unfoldable pub all_decided : List ReviewHunk → Bool
all_decided hunks = all (λ h. not (is_undecided h.decision)) hunks

-- `lists[h.decision].push(h.hunk.id)`, for a hunk that comes before those of the lists.
abbrev pub put_first : Decision → String → DecisionLists → DecisionLists
put_first undecided id lists = lists
put_first accepted id lists = record lists { accepted_ids = id ∷ lists.accepted_ids }
put_first rejected id lists = record lists { rejected_ids = id ∷ lists.rejected_ids }
put_first stale id lists = record lists { stale_ids = id ∷ lists.stale_ids }

unfoldable pub outcome_lists : List ReviewHunk → DecisionLists
outcome_lists [] = record { accepted_ids = []; rejected_ids = []; stale_ids = [] }
outcome_lists (h ∷ hunks) = put_first h.decision h.hunk.id (outcome_lists hunks)

unfoldable pub decisions_of : List ReviewHunk → List (String × Decision)
decisions_of hunks = map (λ h. (h.hunk.id, h.decision)) hunks

-- Whether the hunk at an index is there and open.
abbrev pub is_open_at : List ReviewHunk → ℕ → Bool
is_open_at hunks index = elim (get_elem? hunks index) [
  | none ↦ false
  | some h ↦ is_undecided h.decision
]

-- The rounds of the loop that are left, and its step.
unfoldable pub search_open : List ReviewHunk → ℕ → ℕ → ℕ → ℕ
search_open hunks from zero step = from
search_open hunks from (suc rounds) step =
    let index = (from + step) % length hunks in
    let rest = search_open hunks from rounds (suc step) in
    if is_open_at hunks index then index else rest

unfoldable pub next_open : List ReviewHunk → ℕ → ℕ
unfolding search_open
next_open hunks from = search_open hunks from (length hunks) 0

-- `Partial<Pick<ReviewHunk, ...>>`: what is `none` is left as it is.
pub record Patch : Type 0 where
  pub new_decision : Option Decision
  pub new_busy : Option Bool
  pub new_blocked : Option Bool

abbrev pub or_old {ℓ} : {A : Type ℓ} → Option A → A → A
or_old none old = old
or_old (some new) old = new

abbrev pub patched : Patch → ReviewHunk → ReviewHunk
patched patch h = record h {
  decision = or_old patch.new_decision h.decision;
  busy = or_old patch.new_busy h.busy;
  blocked = or_old patch.new_blocked h.blocked;
}

abbrev pub patch_hunks : String → Patch → List ReviewHunk → List ReviewHunk
patch_hunks hunk_id patch hunks =
    map (λ h. if str_eq h.hunk.id hunk_id then patched patch h else h) hunks

unfoldable pub patch_hunk : InlineReview → String × Patch → InlineReview
unfolding next_open
patch_hunk review (hunk_id, patch) =
    let hunks = patch_hunks hunk_id patch review.hunks in
    record review {
      hunks = hunks;
      active =
          if is_open_at hunks review.active then review.active else next_open hunks review.active;
    }

-- `payload.decided[hunk.id]`: of entries with one key the last one counts.
abbrev pub get_decided : List (String × Decision) → String → Option Decision
get_decided [] id = none
get_decided ((other, decision) ∷ decided) id = elim (get_decided decided id) [
  | some later ↦ some later
  | none ↦ if str_eq other id then some decision else none
]

abbrev pub start_hunk : List Text → List (String × Decision) → DiffHunk → ReviewHunk
start_hunk lines decided hunk =
    let decision = or_old (get_decided decided hunk.id) undecided in
    let (line, blocked) =
      if is_undecided decision then display_line lines hunk (hint_of hunk) else (0, false) in
    record { hunk = hunk; decision = decision; blocked = blocked; busy = false; line = line }

unfoldable pub create_review :
    String → Text → Bool → List DiffHunk → List (String × Decision) → List Text → InlineReview
unfolding next_open display_line
create_review proposal_id path read_only given decided lines =
    let hunks = map (start_hunk lines decided) given in
    record {
      proposal_id = proposal_id;
      path = path;
      read_only = read_only;
      active = next_open hunks 0;
      hunks = hunks;
    }

-- An open hunk after a change: the line that its start has moved to, and whether the change touched it.
unfoldable pub relocate_hunk : List Text → ReviewHunk → ℕ → Bool → ReviewHunk
unfolding display_line
relocate_hunk lines h mapped_line touched =
    if not touched && not h.blocked
    then record h { line = mapped_line }
    else (let (line, blocked) =
          display_line lines h.hunk (if h.blocked then hint_of h.hunk else pos mapped_line) in
        record h { line = line; blocked = blocked })

unfoldable pub relocate_review :
    List Text → (ReviewHunk → ℕ) → (ReviewHunk → Bool) → InlineReview → InlineReview
unfolding relocate_hunk
relocate_review lines mapped_line touched review = record review {
  hunks =
      map
        (λ h.
          if is_undecided h.decision then relocate_hunk lines h (mapped_line h) (touched h) else h)
        review.hunks;
}
