-- ===== src/Search/Find.antt =====
-- find.ts: the matches of a text with their lines. The matches themselves are those of the regular
-- expression engine: `matchAll` is a parameter, the list of what it yields.
pub mod LineIndex
pub mod Matches
pub mod Preview
use inkstave.Prelude.{
  ℕ, zero, suc, ◌+◌, ◌-◌, ◌/◌, min, Bool, true, false, Option, none, some, List, [], ◌∷◌, ◌++◌,
  if◌then◌else◌, ltb, leb, ◌==◌, length, slice, get_elem?, Text,
}
use mathlib.Core.Option.{get_or}

-- One result of the engine; a group that took no part is `none`.
pub record Found : Type 0 where
  pub whole : Text
  pub index : ℕ
  pub groups : List (Option Text)
  pub named : List (Text × Option Text)

pub record TextMatch : Type 0 where
  pub from : ℕ
  pub to : ℕ
  pub line : ℕ
  pub column : ℕ
  pub text : Text
  pub groups : List (Option Text)
  pub named : List (Text × Option Text)
  pub line_text : Text

-- The offsets behind the newlines of `text`, which stands at `i`.
unfoldable pub starts_behind : ℕ → Text → List ℕ
starts_behind i [] = []
starts_behind i (c ∷ text) =
    let rest = starts_behind (suc i) text in if c == 10 then suc i ∷ rest else rest

unfoldable pub line_starts : Text → List ℕ
unfolding starts_behind
line_starts text = 0 ∷ starts_behind 0 text

-- `starts[i]`, for an index within the list.
abbrev pub start_at : List ℕ → ℕ → ℕ
start_at starts i = elim (get_elem? starts i) [ none ↦ 0 | some s ↦ s ]

-- The binary search, with fuel for the rounds of its loop.
search_line : ℕ → List ℕ → ℕ → ℕ → ℕ → ℕ
search_line zero starts offset low high = low
search_line (suc fuel) starts offset low high =
    let mid = (low + high + 1) / 2 in
    let up = search_line fuel starts offset mid high in
    let down = search_line fuel starts offset low (mid - 1) in
    if ltb low high then (if leb (start_at starts mid) offset then up else down) else low

unfoldable pub line_index_of : List ℕ → ℕ → ℕ
unfolding search_line
line_index_of starts offset = search_line (length starts) starts offset 0 (length starts - 1)

-- What the loop of `findMatches` pushes for one result.
unfoldable pub match_of : Text → List ℕ → Found → TextMatch
match_of text starts found =
    let index = line_index_of starts found.index in
    let line_end =
      if ltb (index + 1) (length starts) then start_at starts (index + 1) - 1 else length text in
    record {
      from = found.index;
      to = found.index + length found.whole;
      line = index + 1;
      column = found.index - start_at starts index;
      text = found.whole;
      groups = found.groups;
      named = found.named;
      line_text = slice (start_at starts index) line_end text;
    }

-- The loop, with the number of matches so far; a limit of `none` is infinity.
abbrev pub at_limit : Option ℕ → ℕ → Bool
at_limit none count = false
at_limit (some limit) count = leb limit count

unfoldable pub collect : Text → List ℕ → Option ℕ → ℕ → List Found → List TextMatch
unfolding match_of
collect text starts limit count [] = []
collect text starts limit count (found ∷ more) =
    let skipped = collect text starts limit count more in
    let kept = match_of text starts found ∷ collect text starts limit (suc count) more in
    if at_limit limit count then [] else if length found.whole == 0 then skipped else kept

unfoldable pub find_matches : Text → (Text → List Found) → Option ℕ → List TextMatch
unfolding collect line_starts
find_matches text match_all limit = collect text (line_starts text) limit 0 (match_all text)
