-- ===== src/Suggestions/Records.antt =====
-- model.ts and review.ts: the records of the suggestions of a document, their places in the shared text,
-- and the decisions on them. The map of the records is a list with the id of each record. The positions
-- belong to Yjs: where an encoded position points now is a parameter.
pub mod Undoes
pub mod Decides
pub mod Own
pub mod Reads
mod Tests
use inkstave.Prelude.{
  ℕ, suc, ◌+◌, ◌-◌, ◌≤◌, Bool, true, false, not, ◌&&◌, Option, none, some, List, [], ◌∷◌, map,
  String, Text, if◌then◌else◌, str_eq, ltb, leb, ◌==◌, ◌≡◌, filter_by, sort_by, length,
}
use inkstave.Crdt.{YText}
use inkstave.Suggestions.Planner.{OwnInsertion, TextRange}

-- What distinguishes the two kinds of a suggestion: the encoded start and end of an insertion, the encoded
-- place and the text of a deletion.
pub data SuggestionKind : Type 0 where
  insertion : (start end : String) → SuggestionKind
  deletion : (at : String) (text : Text) → SuggestionKind

pub record Suggestion : Type 0 where
  pub id : String
  pub author_id : String
  pub author_name : String
  pub created_at : String
  pub kind : SuggestionKind

pub record PlacedSuggestion : Type 0 where
  pub suggestion : Suggestion
  pub range : Option TextRange

pub data Decision : Type 0 where
  accept reject dismiss : Decision

-- `map.get` and `map.delete`.
abbrev pub get_record : List Suggestion → String → Option Suggestion
get_record [] id = none
get_record (s ∷ records) id = if str_eq s.id id then some s else get_record records id

abbrev pub delete_record : List Suggestion → String → List Suggestion
delete_record records id = filter_by (λ s. not (str_eq s.id id)) records

abbrev pub has_place : Option TextRange → Bool
has_place none = false
has_place (some range) = true

abbrev pub is_reject : Decision → Bool
is_reject reject = true
is_reject _ = false

-- The range of an insertion, from where its two positions point.
abbrev pub range_between : Option ℕ → Option ℕ → Option TextRange
range_between (some from) (some to) =
    if leb to from then none else some (record { from = from; to = to })
range_between _ _ = none

abbrev pub empty_range : Option ℕ → Option TextRange
empty_range none = none
empty_range (some at) = some (record { from = at; to = at })

-- `resolvePosition` of a shared text, which lies within the text.
pub record Positions (Y : YText) : Type 0 where
  pub resolve : Y.Carrier → String → Option ℕ
  pub resolve-within :
      (y : Y.Carrier) (encoded : String) (index : ℕ)
      → resolve y encoded ≡ some index
      → index ≤ length (Y.to_string y)

module _ (Y : YText) (places : Positions Y) where
  open Y use {Carrier, delete, insert}

  abbrev pub resolve_kind : Carrier → SuggestionKind → Option TextRange
  resolve_kind ytext (deletion at text) = empty_range (places.resolve ytext at)
  resolve_kind ytext (insertion start end) =
      range_between (places.resolve ytext start) (places.resolve ytext end)

  unfoldable pub resolve_suggestion : Carrier → Suggestion → Option TextRange
  resolve_suggestion ytext s = resolve_kind ytext s.kind

  -- What a reject does to the text.
  abbrev pub undo_change : Carrier → SuggestionKind → TextRange → Carrier
  undo_change ytext (insertion start end) range =
      if ltb range.from range.to then delete ytext range.from (range.to - range.from) else ytext
  undo_change ytext (deletion at text) range = insert ytext range.from text

  abbrev pub apply_decision : Carrier → Suggestion → Option TextRange → Decision → Carrier
  apply_decision ytext s (some range) reject = undo_change ytext s.kind range
  apply_decision ytext s _ _ = ytext

  -- One suggestion with its range: the text, the records, and whether it was decided.
  abbrev pub decide_placed :
      Carrier
      → List Suggestion
      → Suggestion
      → Decision
      → Option TextRange
      → Carrier × List Suggestion × Bool
  decide_placed ytext records s decision range =
      if is_reject decision && not (has_place range)
      then (ytext, records, false)
      else (apply_decision ytext s range decision, delete_record records s.id, true)

  unfoldable pub decide_found :
      Carrier → List Suggestion → Decision → Option Suggestion → Carrier × List Suggestion × Bool
  unfolding resolve_suggestion
  decide_found ytext records decision none = (ytext, records, false)
  decide_found ytext records decision (some s) =
      decide_placed ytext records s decision (resolve_suggestion ytext s)

  unfoldable pub decide_suggestion :
      Carrier → List Suggestion → String → Decision → Carrier × List Suggestion × Bool
  unfolding decide_found
  decide_suggestion ytext records id decision =
      decide_found ytext records decision (get_record records id)

  -- The loop of `decideAllSuggestions` over the ids, with how many were decided so far.
  unfoldable pub decide_ids :
      List String → Carrier → List Suggestion → Decision → ℕ → Carrier × List Suggestion × ℕ
  unfolding decide_suggestion
  decide_ids [] ytext records decision decided = (ytext, records, decided)
  decide_ids (id ∷ ids) ytext records decision decided =
      let (ytext', records', done) = decide_suggestion ytext records id decision in
      decide_ids ids ytext' records' decision (if done then suc decided else decided)

  unfoldable pub decide_all_suggestions :
      Carrier → List Suggestion → Decision → Carrier × List Suggestion × ℕ
  unfolding decide_ids
  decide_all_suggestions ytext records decision =
      decide_ids (map (λ (s : Suggestion). s.id) records) ytext records decision 0

  -- The order of the records: `a` comes after `b`. `later` compares two times of creation.
  abbrev pub ranges_after : Option TextRange → Option TextRange → Bool → Bool
  ranges_after none none later = false
  ranges_after none (some b) later = true
  ranges_after (some a) none later = false
  ranges_after (some a) (some b) later = if a.from == b.from then later else ltb b.from a.from

  module _ (later : String → String → Bool) where
    abbrev pub comes_after : PlacedSuggestion → PlacedSuggestion → Bool
    comes_after a b =
        ranges_after a.range b.range (later a.suggestion.created_at b.suggestion.created_at)

    unfoldable pub read_suggestions : Carrier → List Suggestion → List PlacedSuggestion
    unfolding resolve_suggestion
    read_suggestions ytext records = sort_by comes_after (
        map (λ (s : Suggestion). record { suggestion = s; range = resolve_suggestion ytext s })
          records)

    -- A placed suggestion, in front of those after it, if it is an insertion of the author.
    abbrev pub own_of :
        SuggestionKind
        → Bool
        → Suggestion
        → Option TextRange
        → List OwnInsertion
        → List OwnInsertion
    own_of (insertion start end) true s (some range) rest =
        record { id = s.id; from = range.from; to = range.to; created_at = s.created_at } ∷ rest
    own_of _ _ _ _ rest = rest

    abbrev pub own_among : String → List PlacedSuggestion → List OwnInsertion
    own_among author_id [] = []
    own_among author_id (p ∷ placed) =
        own_of p.suggestion.kind (str_eq p.suggestion.author_id author_id) p.suggestion p.range
          (own_among author_id placed)

    unfoldable pub own_insertions : Carrier → List Suggestion → String → List OwnInsertion
    unfolding read_suggestions
    own_insertions ytext records author_id = own_among author_id (read_suggestions ytext records)
