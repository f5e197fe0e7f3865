-- ===== src/Suggestions/Records/Tests.antt =====
-- The records of a plain text, whose positions stay where they are.
use mathlib.Core.List.{foldl}
use inkstave.Prelude.{
  none, leb, ltb, ◌&&◌, not, ℕ, ◌≤◌, ◌≡◌, refl, Bool, true, false, some, List, [], ◌∷◌, min, String,
  Text, codes, if◌then◌else◌, str_eq, length, arith,
}
use inkstave.Crdt.{plain_text}
use inkstave.Suggestions.Records.{
  SuggestionKind, insertion, deletion, Suggestion, Positions, reject, decide_suggestion,
  own_insertions,
}
use inkstave.Suggestions.Records.Undoes.{IsUndone, reject-undoes}
use inkstave.Suggestions.Planner.{PlanInput, plan_change, plan_start, uncovered}
use inkstave.Suggestions.Planner.Coverage.{covered}
use inkstave.Suggestions.Planner.Gaps.{in_ranges}
use inkstave.Suggestions.Records.Reads.{in_ranges-uncovered_own}
use inkstave.Suggestions.Records.Own.{AreWithin, own_insertions-AreWithin}

some-inj : {m n : ℕ} → some m ≡ some n → m ≡ n
some-inj h = cc

point-within :
    (y : Text) (b : Bool) (i : ℕ)
    → (if b then some (min 2 (length y)) else some 0) ≡ some i
    → i ≤ length y
point-within y true i h = omega (arith, some-inj h)
point-within y false i h = omega (arith, some-inj h)

-- "two" is the place after two characters, any other position the start.
abbrev fixed : Positions plain_text
fixed = record {
  resolve = λ y encoded. if str_eq encoded "two" then some (min 2 (length y)) else some 0;
  resolve-within = λ y encoded i h. point-within y (str_eq encoded "two") i h;
}

abbrev suggestion_with : String → SuggestionKind → Suggestion
suggestion_with id kind = record {
  id = id;
  author_id = "u";
  author_name = "U";
  created_at = "t";
  kind = kind;
}

abbrev typed : Suggestion
typed = suggestion_with "s" (insertion "zero" "two")

abbrev removed : Suggestion
removed = suggestion_with "d" (deletion "zero" (codes "c"))

abbrev records : List Suggestion
records = typed ∷ removed ∷ []

reject-undoes_example :
    IsUndone plain_text fixed
      (codes "c")
      records
      "s"
      (decide_suggestion plain_text fixed (codes "abc") records "s" reject)
    × IsUndone plain_text fixed
        (codes "c")
        records
        "d"
        (decide_suggestion plain_text fixed [] records "d" reject)
reject-undoes_example =
    reject-undoes plain_text fixed (codes "c") 0 1 (codes "ab") records typed removed "zero" "two"
      "zero" (omega arith) refl refl refl refl refl (omega arith) refl refl refl

own_insertions-AreWithin_example :
    AreWithin plain_text fixed
      (codes "abc")
      (own_insertions plain_text fixed (λ a b. false) (codes "abc") records "u")
own_insertions-AreWithin_example =
    own_insertions-AreWithin plain_text fixed (λ a b. false) (codes "abc") records "u"

abbrev walked : PlanInput
walked = record {
  changes = record { from = 1; to = 1; insert = codes "xy" } ∷ [];
  own = own_insertions plain_text fixed (λ a b. false) (codes "abc") records "u";
  author = some (record { id = "u"; name = "U" });
  now = "t";
  new_id = λ n. "n";
  removed = λ from to. [];
  max_deleted_chars = none;
}

-- After "xy" went in, the own insertion holds the first four characters.
in_ranges-uncovered_own_example :
    let own = (foldl (plan_change walked) (plan_start walked) walked.changes).own in
    in_ranges 4 (uncovered own 0 6) ≡ (leb 0 4 && (ltb 4 6 && not (covered 4 own)))
in_ranges-uncovered_own_example =
    in_ranges-uncovered_own plain_text fixed (λ a b. false) (codes "abc") records "u" walked
      walked.changes 4 0 6 refl
