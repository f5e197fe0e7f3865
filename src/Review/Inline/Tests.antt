-- ===== src/Review/Inline/Tests.antt =====
-- A review of two hunks, one of which no longer matches the text.
use inkstave.Prelude.{◌≡◌, refl, ◌∷◌, [], true, false, some, List, String, map}
use mathlib.Core.List.{Perm}
use inkstave.Review.Hunk.{DiffHunk}
use inkstave.Review.Inline.{
  Decision, undecided, accepted, stale, ReviewHunk, InlineReview, all_decided, outcome_lists,
}
use inkstave.Review.Inline.Outcome.{all_lists, AreLists, outcome_lists_complete}
use inkstave.Review.Inline.Actions.{may_settle, begin_accept_all, end_accept_all, set_busy}
use inkstave.Review.Inline.Actions.Accepts.{end_accept_all-settles}

abbrev hunk_named : String → DiffHunk
hunk_named id = record {
  id = id;
  header = [];
  old_start = 1;
  old_lines = 0;
  new_start = 1;
  new_lines = 0;
  lines = [];
}

abbrev hunk_with : String → Decision → ReviewHunk
hunk_with id decision = record {
  hunk = hunk_named id;
  decision = decision;
  blocked = false;
  busy = false;
  line = 0;
}

abbrev half_done : InlineReview
half_done = record {
  proposal_id = "p";
  path = [];
  read_only = false;
  active = 1;
  hunks = hunk_with "a" accepted ∷ hunk_with "b" undecided ∷ [];
}

abbrev all_done : List ReviewHunk
all_done = hunk_with "a" accepted ∷ hunk_with "b" stale ∷ []

done : all_decided all_done ≡ true
unfolding all_decided
done = refl

outcome_lists_complete_example :
    Perm (all_lists (outcome_lists all_done)) (map (λ h. h.hunk.id) all_done)
    × AreLists all_done (outcome_lists all_done)
outcome_lists_complete_example = outcome_lists_complete all_done done

begins : begin_accept_all half_done ≡ some ("b" ∷ [], set_busy ("b" ∷ []) true half_done)
unfolding begin_accept_all
begins = refl

end_accept_all-settles_example :
    may_settle (end_accept_all ("b" ∷ []) (some ("b" ∷ [])) (set_busy ("b" ∷ []) true half_done))
    ≡ true
end_accept_all-settles_example =
    end_accept_all-settles half_done (set_busy ("b" ∷ []) true half_done) ("b" ∷ []) ("b" ∷ []) refl
      begins
