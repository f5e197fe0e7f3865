-- ===== src/Review/Locate.antt =====
-- hunks.ts, `locate`: the place of a block of lines that is nearest to a hint. The hint of a hunk is
-- its 1-based line less one, which can be -1; the result -1 is `none`.
pub mod Occurs
pub mod Nearest
use inkstave.Prelude.{
  ℕ, zero, suc, ◌+◌, ◌-◌, ◌≤◌, ◌<◌, ◌≡◌, ◌≢◌, refl, sym, ap, ap₂, subst, ◌∙◌, Bool, true, false,
  ◌&&◌, Option, none, some, List, [], ◌∷◌, arith, ltb, ◌==◌, if◌then◌else◌, Bool-cases,
  Option-cases, ◌⊎◌, inl, inr, min, length, take, drop, get_elem?, Text, text_eq, text_eq_sound,
  text_eq_refl, ℤ, pos, negsuc, plus, minus, dist, length-take, length-drop,
}

-- `lines[i] === n`
unfoldable pub line_is : Option Text → Text → Bool
line_is none n = false
line_is (some line) n = text_eq line n

-- `needle.every((n, i) => lines[cand + i] === n)`
unfoldable pub fits_at : List Text → List Text → ℕ → Bool
fits_at lines [] cand = true
fits_at lines (n ∷ needle) cand =
    line_is (get_elem? lines cand) n && fits_at lines needle (suc cand)

module _ (lines needle : List Text) (hint : ℤ) where
  -- One candidate of the inner loop.
  unfoldable pub try_at : ℤ → Option ℕ
  unfolding fits_at line_is
  try_at (negsuc _) = none
  try_at (pos cand) =
      if ltb (length lines - length needle) cand
      then none
      else if fits_at lines needle cand
      then some cand
      else none

  -- The candidates at distance `d`, the one above first.
  unfoldable pub try_both : ℕ → Option ℕ
  unfolding try_at
  try_both d =
      if d == 0
      then try_at hint
      else elim (try_at (minus hint d)) [ none ↦ try_at (plus hint d) | some cand ↦ some cand ]

  -- The outer loop, with the rounds that are left.
  unfoldable pub search_from : ℕ → ℕ → Option ℕ
  unfolding try_both
  search_from zero d = none
  search_from (suc left) d =
      let rest = search_from left (suc d) in
      elim (try_both d) [ none ↦ rest | some cand ↦ some cand ]

unfoldable pub clamp : ℤ → ℕ → ℕ
clamp (negsuc _) n = 0
clamp (pos h) n = min h n

unfoldable pub locate : List Text → List Text → ℤ → Option ℕ
unfolding search_from clamp
locate lines needle hint =
    if length needle == 0
    then some (clamp hint (length lines))
    else if ltb (length lines) (length needle)
    then none
    else search_from lines needle hint (suc (length lines)) 0
