-- ===== src/Review/Inline/Actions.antt =====
-- inline-review-actions.ts: what a decision does to the review. A write into the shared text is split where
-- the code awaits it: the hunks become busy, and its outcome decides them.
pub mod Decides
pub mod Settles
pub mod Accepts
use mathlib.Core.List.{foldl}
use inkstave.Prelude.{
  ℕ, Bool, true, false, not, ◌&&◌, ◌||◌, Option, none, some, List, [], ◌∷◌, map, String, Text,
  if◌then◌else◌, str_eq, ltb, length, any, filter_by,
}
use inkstave.Review.Rebase.{RebaseResult, rebase_hunks, has}
use inkstave.Review.Inline.{
  Decision, undecided, accepted, rejected, stale, ReviewHunk, InlineReview, Patch, patch_hunk,
  is_undecided, pending_hunks, all_decided,
}

abbrev pub find_hunk : List ReviewHunk → String → Option ReviewHunk
find_hunk [] hunk_id = none
find_hunk (h ∷ hunks) hunk_id = if str_eq h.hunk.id hunk_id then some h else find_hunk hunks hunk_id

unfoldable pub open_of : InlineReview → List ReviewHunk
unfolding pending_hunks
open_of review = filter_by (λ h. not h.busy) (pending_hunks review.hunks)

unfoldable pub patch_each : List (String × Patch) → InlineReview → InlineReview
unfolding patch_hunk
patch_each entries review = foldl patch_hunk review entries

abbrev pub decision_patch : Decision → Patch
decision_patch decision = record {
  new_decision = some decision;
  new_busy = some false;
  new_blocked = none;
}

abbrev pub busy_patch : Bool → Patch
busy_patch busy = record { new_decision = none; new_busy = some busy; new_blocked = none }

abbrev pub drifted_patch : Patch
drifted_patch = record { new_decision = none; new_busy = some false; new_blocked = some true }

unfoldable pub decide : List (String × Decision) → InlineReview → InlineReview
unfolding patch_each
decide entries review =
    patch_each (map (λ (e : String × Decision). (e.0, decision_patch e.1)) entries) review

unfoldable pub set_busy : List String → Bool → InlineReview → InlineReview
unfolding patch_each
set_busy ids busy review = patch_each (map (λ id. (id, busy_patch busy)) ids) review

-- `writeHunks`: the result of the rebase of the hunks with the ids on the live text; its target is
-- written if a hunk was applied.
unfoldable pub write_hunks : Text → InlineReview → List String → Option Text × List String
unfolding rebase_hunks
write_hunks live review ids =
    let r = rebase_hunks live (map (λ h. h.hunk) review.hunks) ids in
    (if ltb 0 (length r.applied_hunk_ids) then some r.target else none, r.applied_hunk_ids)

-- Whether `settle` records the outcome.
unfoldable pub may_settle : InlineReview → Bool
may_settle review = not review.read_only && ltb 0 (length review.hunks) && all_decided review.hunks

abbrev pub refusal : ReviewHunk → Decision
refusal h = if h.blocked then stale else rejected

unfoldable pub reject : String → InlineReview → InlineReview
unfolding decide
reject hunk_id review = elim (find_hunk review.hunks hunk_id) [
  | none ↦ review
  | some h ↦
      if not (is_undecided h.decision) || h.busy || review.read_only
      then review
      else decide ((hunk_id, refusal h) ∷ []) review
]

unfoldable pub reject_all : InlineReview → InlineReview
unfolding open_of decide
reject_all review =
    if review.read_only
    then review
    else decide (map (λ h. (h.hunk.id, refusal h)) (open_of review)) review

-- `accept` up to its write: the review with the hunk busy, if it may be written.
unfoldable pub begin_accept : String → InlineReview → Option InlineReview
unfolding set_busy
begin_accept hunk_id review = elim (find_hunk review.hunks hunk_id) [
  | none ↦ none
  | some h ↦
      if review.read_only || not (is_undecided h.decision) || h.busy || h.blocked
      then none
      else some (set_busy (hunk_id ∷ []) true review)
]

-- The rest of `accept`: the ids that were written, or a failed write.
unfoldable pub end_accept : String → Option (List String) → InlineReview → InlineReview
unfolding decide set_busy patch_each
end_accept hunk_id none review = set_busy (hunk_id ∷ []) false review
end_accept hunk_id (some applied) review =
    if has applied hunk_id
    then decide ((hunk_id, accepted) ∷ []) review
    else patch_each ((hunk_id, drifted_patch) ∷ []) review

-- `acceptAll` up to its write: the ids of the open hunks and the review with them busy.
unfoldable pub begin_accept_all : InlineReview → Option (List String × InlineReview)
unfolding open_of set_busy
begin_accept_all review =
    let ids = map (λ h. h.hunk.id) (open_of review) in
    if review.read_only || not (ltb 0 (length ids))
    then none
    else some (ids, set_busy ids true review)

-- The ids among the open hunks that are written.
unfoldable pub writable_ids : InlineReview → List String
unfolding open_of
writable_ids review = map (λ h. h.hunk.id) (filter_by (λ h. not h.blocked) (open_of review))

unfoldable pub end_accept_all : List String → Option (List String) → InlineReview → InlineReview
unfolding decide set_busy
end_accept_all ids none review = set_busy ids false review
end_accept_all ids (some applied) review =
    decide (map (λ id. (id, if has applied id then accepted else stale)) ids) review
