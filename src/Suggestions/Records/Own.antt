-- ===== src/Suggestions/Records/Own.antt =====
-- model.ts, `readSuggestions` and `ownInsertions`: what the planner gets.
use inkstave.Prelude.{
  ℕ, ◌≤◌, ◌<◌, ◌≡◌, refl, Bool, true, false, Option, none, some, List, [], ◌∷◌, map, String,
  if-split, leb, length, All, arith, sort_by-All, str_eq,
}
use inkstave.Crdt.{YText}
use inkstave.Suggestions.Planner.{OwnInsertion, TextRange}
use inkstave.Suggestions.Records.{
  SuggestionKind, insertion, deletion, Suggestion, PlacedSuggestion, Positions, resolve_kind,
  resolve_suggestion, range_between, comes_after, read_suggestions, own_of, own_among,
  own_insertions,
}

module _ (Y : YText) (places : Positions Y) where
  open Y use {Carrier, to_string}

  -- A range that is not empty and lies within the text.
  abbrev pub IsWithin : Carrier → ℕ → ℕ → Type 0
  IsWithin y from to = (from < to) × (to ≤ length (to_string y))

  -- The range that an insertion was found at.
  abbrev pub IsPlaced : Carrier → SuggestionKind → Option TextRange → Type 0
  IsPlaced y (deletion at text) range = Unit
  IsPlaced y (insertion start end) none = Unit
  IsPlaced y (insertion start end) (some range) = IsWithin y range.from range.to

  range_between-IsPlaced :
      (y : Carrier) (start end : String) (a b : Option ℕ)
      → places.resolve y end ≡ b
      → IsPlaced y (insertion start end) (range_between a b)
  range_between-IsPlaced y start end none b e = tt
  range_between-IsPlaced y start end (some from) none e = tt
  range_between-IsPlaced y start end (some from) (some to) e =
      if-split (IsPlaced y (insertion start end)) (leb to from) (λ _. tt)
        (λ k. (ground (arith, k), places.resolve-within y end to e))

  resolve_kind-IsPlaced :
      (y : Carrier) (kind : SuggestionKind) → IsPlaced y kind (resolve_kind Y places y kind)
  resolve_kind-IsPlaced y (deletion at text) = tt
  resolve_kind-IsPlaced y (insertion start end) =
      range_between-IsPlaced y start end (places.resolve y start) (places.resolve y end) refl

  abbrev pub ArePlaced : Carrier → List PlacedSuggestion → Type 0
  ArePlaced y placed = All (λ (p : PlacedSuggestion). IsPlaced y p.suggestion.kind p.range) placed

  all_placed :
      (y : Carrier) (records : List Suggestion)
      → ArePlaced y (
          map
            (λ (s : Suggestion). record { suggestion = s; range = resolve_suggestion Y places y s })
            records)
  unfolding resolve_suggestion
  all_placed y [] = tt
  all_placed y (s ∷ records) = (resolve_kind-IsPlaced y s.kind, all_placed y records)

  abbrev pub AreWithin : Carrier → List OwnInsertion → Type 0
  AreWithin y own = All (λ (o : OwnInsertion). IsWithin y o.from o.to) own

  module _ (later : String → String → Bool) where
    own_of-AreWithin :
        (y : Carrier) (kind : SuggestionKind) (own : Bool) (s : Suggestion)
        (range : Option TextRange) (rest : List OwnInsertion)
        → IsPlaced y kind range
        → AreWithin y rest
        → AreWithin y (own_of Y places later kind own s range rest)
    own_of-AreWithin y (deletion at text) own s range rest p k = k
    own_of-AreWithin y (insertion start end) false s range rest p k = k
    own_of-AreWithin y (insertion start end) true s none rest p k = k
    own_of-AreWithin y (insertion start end) true s (some range) rest p k = (p, k)

    own_among-AreWithin :
        (y : Carrier) (author_id : String) (placed : List PlacedSuggestion)
        → ArePlaced y placed
        → AreWithin y (own_among Y places later author_id placed)
    own_among-AreWithin y author_id [] k = tt
    own_among-AreWithin y author_id (p ∷ placed) (k, rest) =
        own_of-AreWithin y p.suggestion.kind (str_eq p.suggestion.author_id author_id) p.suggestion
          p.range (own_among Y places later author_id placed) k
          (own_among-AreWithin y author_id placed rest)

    pub read_suggestions-ArePlaced :
        (y : Carrier) (records : List Suggestion)
        → ArePlaced y (read_suggestions Y places later y records)
    unfolding read_suggestions
    read_suggestions-ArePlaced y records =
        sort_by-All (comes_after Y places later)
          (λ (p : PlacedSuggestion). IsPlaced y p.suggestion.kind p.range)
          (map
            (λ (s : Suggestion). record { suggestion = s; range = resolve_suggestion Y places y s })
            records)
          (all_placed y records)

    -- The insertions that the planner gets of an author are not empty and lie within the shared text.
    pub own_insertions-AreWithin :
        (y : Carrier) (records : List Suggestion) (author_id : String)
        → AreWithin y (own_insertions Y places later y records author_id)
    unfolding own_insertions
    own_insertions-AreWithin y records author_id =
        own_among-AreWithin y author_id (read_suggestions Y places later y records)
          (read_suggestions-ArePlaced y records)
