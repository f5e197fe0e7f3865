-- ===== src/Search/Replace.antt =====
-- replace.ts: the edits of a replacement, and a match found again in a text that has changed.
pub mod Edits
pub mod Relocate
pub mod WholeText
use mathlib.Core.List.{foldl}
use inkstave.Prelude.{
  ℕ, zero, suc, ◌+◌, ◌-◌, Bool, true, false, not, ◌&&◌, Option, none, some, List, [], ◌∷◌, ◌++◌,
  map, if◌then◌else◌, ltb, ◌==◌, length, slice, drop, get_elem?, Text, text_eq, sort_by, filter_by,
}
use inkstave.Edits.{Edit}
use inkstave.Search.Find.{TextMatch}
use inkstave.Search.Expand.{expand_replacement}

-- One edit per match, in text order.
unfoldable pub replacement_edits :
    (Text → Option Text) → List TextMatch → Text → Bool → List (Edit ℕ)
replacement_edits inherited matches template regex =
    map
      (λ match. record {
        from = match.from;
        to = match.to;
        insert = expand_replacement inherited template match regex;
      })
      matches

-- `[...edits].sort((a, b) => a.from - b.from)`
abbrev pub starts_behind_edit : Edit ℕ → Edit ℕ → Bool
starts_behind_edit a b = ltb b.from a.from

-- The loop of `applyEdits` and the rest of the text.
unfoldable pub apply_from : Text → Text → ℕ → List (Edit ℕ) → Text
apply_from text out pos [] = out ++ drop pos text
apply_from text out pos (edit ∷ edits) =
    apply_from text (out ++ (slice pos edit.from text ++ edit.insert)) edit.to edits

unfoldable pub apply_edits : Text → List (Edit ℕ) → Text
unfolding apply_from
apply_edits text edits = apply_from text [] 0 (sort_by starts_behind_edit edits)

unfoldable pub same_match : TextMatch → TextMatch → Bool
same_match a b = text_eq a.text b.text && (text_eq a.line_text b.line_text && a.column == b.column)

-- `findIndex` by the start of a match.
unfoldable pub index_from : ℕ → List TextMatch → Option ℕ
index_from from [] = none
index_from from (match ∷ matches) =
    let later = index_from from matches in
    if match.from == from then some 0 else elim later [ none ↦ none | some i ↦ some (suc i) ]

-- `Math.abs(a - b)`
abbrev pub apart : ℕ → ℕ → ℕ
apart a b = (a - b) + (b - a)

-- One round of the loop for the nearest candidate.
unfoldable pub nearer : TextMatch → Option TextMatch → TextMatch → Option TextMatch
nearer wanted none match = some match
nearer wanted (some best) match =
    if ltb (apart match.from wanted.from) (apart best.from wanted.from)
    then some match
    else some best

unfoldable pub nearest : TextMatch → List TextMatch → Option TextMatch
unfolding nearer
nearest wanted candidates = foldl (nearer wanted) none candidates

unfoldable pub relocate : List TextMatch → TextMatch → List TextMatch → Option TextMatch
unfolding same_match index_from nearest
relocate current wanted seen =
    let candidates = filter_by (λ match. same_match match wanted) current in
    let before = filter_by (λ match. same_match match wanted) seen in
    elim (index_from wanted.from before) [
      | none ↦ nearest wanted candidates
      | some rank ↦
          if length before == length candidates
          then get_elem? candidates rank
          else nearest wanted candidates
    ]
