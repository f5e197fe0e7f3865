-- ===== src/Search/Find/Matches.antt =====
-- find.ts, `findMatches`: the lines of the matches.
use inkstave.Prelude.{
  ℕ, suc, ◌+◌, ◌-◌, ◌≤◌, ◌<◌, ◌≡◌, subst, false, Option, List, [], ◌∷◌, ◌==◌, length, Text, arith,
  Bool-cases, inl, inr, All,
}
use inkstave.Search.Find.{
  Found, TextMatch, starts_behind, line_starts, start_at, line_index_of, match_of, at_limit,
  collect, find_matches,
}
use inkstave.Search.Find.LineIndex.{line_index_of-HoldsOffset}

-- A match stands in the line that it names: its column counts from the start of that line, the next
-- line starts behind it, and it is not empty.
abbrev pub IsPlaced : Text → TextMatch → Type 0
IsPlaced text m =
    (start_at (line_starts text) (m.line - 1) + m.column ≡ m.from)
    × (0 < m.line)
    × (m.line ≤ length (line_starts text))
    × (m.line < length (line_starts text) → m.from < start_at (line_starts text) m.line)
    × (m.from < m.to)

match_of-IsPlaced :
    (text : Text) (f : Found)
    → (length f.whole == 0) ≡ false
    → IsPlaced text (match_of text (line_starts text) f)
unfolding match_of line_starts
match_of-IsPlaced text f h =
    let i = line_index_of (line_starts text) f.index in
    let holds = line_index_of-HoldsOffset (starts_behind 0 text) f.index in
    let back : i ≡ i + 1 - 1 = omega arith in
    let next : suc i ≡ i + 1 = omega arith in
    let start : start_at (line_starts text) i ≤ f.index = holds.1 in
    let column : start_at (line_starts text) i + (f.index - start_at (line_starts text) i)
        ≡ f.index =
      omega arith in
    let size : 0 < length f.whole = ground arith in
    (
      subst
          (λ j. start_at (line_starts text) j + (f.index - start_at (line_starts text) i) ≡ f.index)
          back column,
      omega arith,
      omega (arith, holds.0),
      λ q. subst (λ j. f.index < start_at (line_starts text) j) next (holds.2 (omega arith)),
      omega arith,
    )

collect-All :
    (text : Text) (limit : Option ℕ) (count : ℕ) (fs : List Found)
    → All (IsPlaced text) (collect text (line_starts text) limit count fs)
unfolding collect
collect-All text limit count [] = tt
collect-All text limit count (f ∷ fs) = elim (Bool-cases (at_limit limit count)) [
  | inl e ↦ rw e tt
  | inr e ↦ elim (Bool-cases (length f.whole == 0)) [
    | inl g ↦ rw (e, g) (collect-All text limit count fs)
    | inr g ↦ rw (e, g) (match_of-IsPlaced text f g, collect-All text limit (suc count) fs)
  ]
]

-- Every match that is found stands in the line that it names, whatever the engine yields.
pub find_matches-IsPlaced :
    (text : Text) (match_all : Text → List Found) (limit : Option ℕ)
    → All (IsPlaced text) (find_matches text match_all limit)
unfolding find_matches
find_matches-IsPlaced text match_all limit = collect-All text limit 0 (match_all text)
