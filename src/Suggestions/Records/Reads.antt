-- ===== src/Suggestions/Records/Reads.antt =====
-- model.ts, `readSuggestions` and `ownInsertions`, with record.ts, `uncovered`: the planner gets the
-- insertions of an author in the order that its gaps need.
use mathlib.Core.List.{foldl}
use inkstave.Prelude.{
  ℕ, ◌≤◌, ◌≡◌, refl, sym, subst, ◌&&◌, Bool, true, false, not, Option, none, some, List, [], ◌∷◌,
  String, leb, ltb, All, ArePairwise, arith, sort_by-sorts, str_eq,
}
use inkstave.Crdt.{YText}
use inkstave.Suggestions.Planner.{
  OwnInsertion, TextChange, TextRange, PlanInput, uncovered, plan_change, plan_start,
}
use inkstave.Suggestions.Planner.Ascending.{IsAscendingFrom, plan_changes-IsAscendingFrom}
use inkstave.Suggestions.Planner.Coverage.{covered}
use inkstave.Suggestions.Planner.Gaps.{in_ranges, in_ranges-uncovered}
use inkstave.Suggestions.Records.{
  SuggestionKind, insertion, deletion, Suggestion, PlacedSuggestion, Positions, ranges_after,
  comes_after, read_suggestions, own_of, own_among, own_insertions,
}
use inkstave.Suggestions.Records.Own.{IsPlaced, ArePlaced, read_suggestions-ArePlaced}

-- The range starts at `lo` or behind it, if there is one.
abbrev StartsFrom : ℕ → Option TextRange → Type 0
StartsFrom lo none = Unit
StartsFrom lo (some r) = lo ≤ r.from

-- The order of the ranges: by where they start, those that are gone last.
abbrev Precedes : Option TextRange → Option TextRange → Type 0
Precedes (some a) b = StartsFrom a.from b
Precedes none none = Unit
Precedes none (some b) = ⊥

Precedes-chain : (a b c : Option TextRange) → Precedes a b → Precedes b c → Precedes a c
Precedes-chain (some a) (some b) (some c) h k = omega arith
Precedes-chain (some a) b none h k = tt
Precedes-chain (some a) none (some c) h k = absurd k
Precedes-chain none none c h k = k
Precedes-chain none (some b) c h k = absurd h

module _ (Y : YText) (places : Positions Y) (later : String → String → Bool) where
  open Y use {Carrier}

  ranges_after-swapped :
      (a b : Option TextRange) (later : Bool)
      → ranges_after Y places a b later ≡ true
      → Precedes b a
  ranges_after-swapped none none later h = tt
  ranges_after-swapped none (some b) later h = tt
  ranges_after-swapped (some a) none later h = ground (arith, h)
  ranges_after-swapped (some a) (some b) later h = ground (arith, h)

  ranges_after-kept :
      (a b : Option TextRange) (later : Bool)
      → ranges_after Y places a b later ≡ false
      → Precedes a b
  ranges_after-kept none none later h = tt
  ranges_after-kept none (some b) later h = ground (arith, h)
  ranges_after-kept (some a) none later h = tt
  ranges_after-kept (some a) (some b) later h = ground (arith, h)

  abbrev Comes : PlacedSuggestion → PlacedSuggestion → Type 0
  Comes p q = Precedes p.range q.range

  read_suggestions-ArePairwise :
      (y : Carrier) (records : List Suggestion)
      → ArePairwise Comes (read_suggestions Y places later y records)
  unfolding read_suggestions
  read_suggestions-ArePairwise y records =
      sort_by-sorts (comes_after Y places later) Comes
        (λ p q.
          ranges_after-swapped p.range q.range
            (later p.suggestion.created_at q.suggestion.created_at))
        (λ p q.
          ranges_after-kept p.range q.range (later p.suggestion.created_at q.suggestion.created_at))
        (λ p q r. Precedes-chain p.range q.range r.range) _

  abbrev AllFrom : ℕ → List PlacedSuggestion → Type 0
  AllFrom lo placed = All (λ (p : PlacedSuggestion). StartsFrom lo p.range) placed

  -- One placed suggestion: what the ranges that its insertion comes in front of have to satisfy.
  own_of-IsAscendingFrom :
      (y : Carrier) (kind : SuggestionKind) (mine : Bool) (s : Suggestion)
      (range : Option TextRange) (lo : ℕ) (rest : List OwnInsertion)
      → StartsFrom lo range
      → IsPlaced Y places y kind range
      → IsAscendingFrom lo rest
      → ((r : TextRange) → range ≡ some r → IsAscendingFrom r.from rest)
      → IsAscendingFrom lo (own_of Y places later kind mine s range rest)
  own_of-IsAscendingFrom y (deletion at text) mine s range lo rest f p o k = o
  own_of-IsAscendingFrom y (insertion start end) false s range lo rest f p o k = o
  own_of-IsAscendingFrom y (insertion start end) true s none lo rest f p o k = o
  own_of-IsAscendingFrom y (insertion start end) true s (some r) lo rest f p o k =
      (f, p.0, k r refl)

  AllFrom-range :
      (r : TextRange) (p : PlacedSuggestion) (placed : List PlacedSuggestion)
      → p.range ≡ some r
      → All (Comes p) placed
      → AllFrom r.from placed
  AllFrom-range r p placed e h =
      subst (λ range. All (λ (q : PlacedSuggestion). Precedes range q.range) placed) e h

  own_among-IsAscendingFrom :
      (y : Carrier) (author_id : String) (lo : ℕ) (placed : List PlacedSuggestion)
      → AllFrom lo placed
      → ArePairwise Comes placed
      → ArePlaced Y places y placed
      → IsAscendingFrom lo (own_among Y places later author_id placed)
  own_among-IsAscendingFrom y author_id lo [] f o w = tt
  own_among-IsAscendingFrom y author_id lo (p ∷ placed) f o w =
      own_of-IsAscendingFrom y p.suggestion.kind (str_eq p.suggestion.author_id author_id)
        p.suggestion p.range lo (own_among Y places later author_id placed) f.0 w.0
        (own_among-IsAscendingFrom y author_id lo placed f.1 o.1 w.1)
        (λ r e.
          own_among-IsAscendingFrom y author_id r.from placed (AllFrom-range r p placed e o.0) o.1
            w.1)

  StartsFrom-zero : (range : Option TextRange) → StartsFrom 0 range
  StartsFrom-zero none = tt
  StartsFrom-zero (some r) = omega arith

  AllFrom-zero : (placed : List PlacedSuggestion) → AllFrom 0 placed
  AllFrom-zero [] = tt
  AllFrom-zero (p ∷ placed) = (StartsFrom-zero p.range, AllFrom-zero placed)

  -- The planner gets the insertions in the order of where they start.
  own_insertions-IsAscendingFrom :
      (y : Carrier) (records : List Suggestion) (author_id : String)
      → IsAscendingFrom 0 (own_insertions Y places later y records author_id)
  unfolding own_insertions
  own_insertions-IsAscendingFrom y records author_id =
      let placed = read_suggestions Y places later y records in
      own_among-IsAscendingFrom y author_id 0 placed (AllFrom-zero placed)
        (read_suggestions-ArePairwise y records)
        (read_suggestions-ArePlaced Y places later y records)

  -- In an edit that starts with the author's insertions as they are read from the records, overlapping
  -- or not, at every step of the walk over the changes: the gaps of a deletion hold exactly the removed
  -- characters that are in none of the insertions.
  pub in_ranges-uncovered_own :
      (y : Carrier) (records : List Suggestion) (author_id : String) (input : PlanInput)
      (before : List TextChange) (p start end : ℕ)
      → input.own ≡ own_insertions Y places later y records author_id
      → let own = (foldl (plan_change input) (plan_start input) before).own in
        in_ranges p (uncovered own start end) ≡ (leb start p && (ltb p end && not (covered p own)))
  in_ranges-uncovered_own y records author_id input before p start end e =
      in_ranges-uncovered (foldl (plan_change input) (plan_start input) before).own p start end (
        plan_changes-IsAscendingFrom input before (plan_start input)
          (subst (IsAscendingFrom 0) (sym e) (own_insertions-IsAscendingFrom y records author_id)))
