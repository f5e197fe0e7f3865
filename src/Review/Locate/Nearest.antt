-- ===== src/Review/Locate/Nearest.antt =====
-- hunks.ts, `locate`: the occurrences of the block and their distance from the hint.
use inkstave.Prelude.{
  ℕ, zero, suc, ◌+◌, ◌-◌, ◌≤◌, ◌<◌, ◌≡◌, ◌≢◌, sym, ap, subst, ◌∙◌, true, false, none, some, List,
  [], ◌∷◌, arith, ◌==◌, Option-cases, ◌⊎◌, inl, inr, length, drop, Text, ℤ, pos, negsuc, plus,
  minus, dist, length-take, length-drop,
}
use mathlib.Core.Bool.{false≢true}
use inkstave.Prelude.{==_iff, ◌*◌}
use inkstave.Review.Locate.{clamp, fits_at, try_at, try_both, search_from, locate}
use inkstave.Review.Locate.Occurs.{OccursAt, fits_at_sound, fits_at_complete}

-- The two candidates at a distance.
dist-minus : (i : ℤ) (d cand : ℕ) → minus i d ≡ pos cand → dist i cand ≡ d
dist-minus (pos n) d cand h = ground arith
dist-minus (negsuc n) d cand h = ground arith

dist-plus : (i : ℤ) (d cand : ℕ) → plus i d ≡ pos cand → dist i cand ≡ d
dist-plus (pos n) d cand h = ground arith
dist-plus (negsuc n) d cand h = ground arith

dist-pos : (i : ℤ) (cand : ℕ) → i ≡ pos cand → dist i cand ≡ 0
dist-pos i cand h = rw h (omega arith)

eq-pos_of_dist : (i : ℤ) (cand : ℕ) → dist i cand ≡ 0 → i ≡ pos cand
eq-pos_of_dist (pos n) cand h = let e : n ≡ cand = omega arith in ap pos e
eq-pos_of_dist (negsuc n) cand h = absurd (omega arith)

dist_cases :
    (i : ℤ) (cand : ℕ) → (minus i (dist i cand) ≡ pos cand) ⊎ (plus i (dist i cand) ≡ pos cand)
dist_cases (pos n) cand = ground arith
dist_cases (negsuc n) cand = ground arith

module _ (lines needle : List Text) (hint : ℤ) where
  -- What the inner loop accepts.
  abbrev IsHit : ℕ → Type 0
  IsHit cand = (cand ≤ length lines - length needle) × (fits_at lines needle cand ≡ true)

  try_at_pos : (cand : ℕ) → IsHit cand → try_at lines needle hint (pos cand) ≡ some cand
  unfolding try_at
  try_at_pos cand h = ground arith

  try_at_sound :
      (i : ℤ) (cand : ℕ) → try_at lines needle hint i ≡ some cand → (i ≡ pos cand) × IsHit cand
  unfolding try_at
  try_at_sound (negsuc n) cand h = ground arith
  try_at_sound (pos n) cand h = ground arith

  try_both_sound :
      (d cand : ℕ) → try_both lines needle hint d ≡ some cand → IsHit cand × (dist hint cand ≡ d)
  unfolding try_both
  try_both_sound d cand h = ground (
    arith,
    try_at_sound hint cand,
    dist-pos hint cand,
    try_at_sound (minus hint d) cand,
    dist-minus hint d cand,
    try_at_sound (plus hint d) cand,
    dist-plus hint d cand,
  )

  try_both_complete : (cand : ℕ) → IsHit cand → try_both lines needle hint (dist hint cand) ≢ none
  unfolding try_both
  try_both_complete cand h =
      ground (arith, eq-pos_of_dist hint cand, dist_cases hint cand, try_at_pos cand h)

  missed-ne :
      (d other : ℕ) → try_both lines needle hint d ≡ none → IsHit other → dist hint other ≢ d
  missed-ne d other missed hit e =
      try_both_complete other hit (ap (try_both lines needle hint) e ∙ missed)

  search_from_sound :
      (left d cand : ℕ)
      → search_from lines needle hint left d ≡ some cand
      → IsHit cand
        × (d ≤ dist hint cand)
        × (dist hint cand < d + left)
        × ((other : ℕ) → IsHit other → d ≤ dist hint other → dist hint cand ≤ dist hint other)
  unfolding search_from
  search_from_sound zero d cand h = ground arith
  search_from_sound (suc left) d cand h = elim (Option-cases (try_both lines needle hint d)) [
    | inl missed ↦
        let later : search_from lines needle hint left (suc d) ≡ some cand = ground arith in
        let r = search_from_sound left (suc d) cand later in
        (
          r.0,
          omega (arith, r.1),
          omega (arith, r.2),
          λ other hit k.
              let apart : dist hint other ≢ d = missed-ne d other missed hit in
              r.3 other hit (omega arith),
        )
    | inr (found, e) ↦
        let same : found ≡ cand = ground arith in
        let at_d = try_both_sound d cand (e ∙ ap some same) in
        (at_d.0, omega (arith, at_d.1), omega (arith, at_d.1), λ other hit k. omega (arith, at_d.1))
  ]

  search_from_misses :
      (left d other : ℕ)
      → search_from lines needle hint left d ≡ none
      → IsHit other
      → d ≤ dist hint other
      → d + left ≤ dist hint other
  unfolding search_from
  search_from_misses zero d other h hit k = omega arith
  search_from_misses (suc left) d other h hit k =
      let missed : try_both lines needle hint d ≡ none = ground arith in
      let later : search_from lines needle hint left (suc d) ≡ none = ground arith in
      let apart : dist hint other ≢ d = missed-ne d other missed hit in
      omega (arith, search_from_misses left (suc d) other later hit (omega arith))

module _ (lines needle : List Text) (hint : ℤ) (some_lines : needle ≢ []) where
  length-ne : (length needle == 0) ≡ false
  length-ne = ground arith

  OccursAt-IsHit :
      (cand : ℕ)
      → OccursAt lines needle cand
      → (length needle ≤ length lines) × IsHit lines needle hint cand
  OccursAt-IsHit cand h =
      let size = ap length h in
      let taken = length-take (length needle) (drop cand lines) in
      let rest = length-drop cand lines in
      let any_line = (==_iff (length needle) 0).1 in
      let ne : length needle ≢ 0 = λ e. false≢true (sym length-ne ∙ any_line e) in
      (
        omega (arith, size, taken, rest),
        (omega (arith, size, taken, rest), fits_at_complete lines needle cand h),
      )

  -- What `locate` finds for a block of lines is the block, no farther from the hint than the text is
  -- long, and as near to the hint as any occurrence of the block.
  pub locate-nearest :
      (cand : ℕ)
      → locate lines needle hint ≡ some cand
      → OccursAt lines needle cand
        × (dist hint cand ≤ length lines)
        × ((other : ℕ) → OccursAt lines needle other → dist hint cand ≤ dist hint other)
  unfolding locate
  locate-nearest cand h =
      let found : search_from lines needle hint (suc (length lines)) 0 ≡ some cand =
        ground (arith, length-ne) in
      let r = search_from_sound lines needle hint (suc (length lines)) 0 cand found in
      (
        fits_at_sound lines needle cand r.0.1,
        omega (arith, r.2),
        λ other o. r.3 other (OccursAt-IsHit other o).1 (omega arith),
      )

  -- Where `locate` finds no place, every occurrence of the block is farther from the hint than the
  -- text is long.
  pub locate-none :
      (other : ℕ)
      → locate lines needle hint ≡ none
      → OccursAt lines needle other
      → length lines < dist hint other
  unfolding locate
  locate-none other h o =
      let hit = OccursAt-IsHit other o in
      let fits : length needle ≤ length lines = hit.0 in
      let missed : search_from lines needle hint (suc (length lines)) 0 ≡ none =
        ground (arith, length-ne, fits) in
      omega (
        arith,
        search_from_misses lines needle hint (suc (length lines)) 0 other missed hit.1
            (omega arith),
      )

  -- With a hint more than twice as far as the text is long, `locate` finds nothing, wherever the block
  -- occurs.
  pub locate_far : (n : ℕ) → hint ≡ pos n → 2 * length lines < n → locate lines needle hint ≡ none
  locate_far n e far = elim (Option-cases (locate lines needle hint)) [
    | inl missed ↦ missed
    | inr (cand, found) ↦
        let r = locate-nearest cand found in
        let near : dist (pos n) cand ≤ length lines =
          subst (λ i. dist i cand ≤ length lines) e r.1 in
        absurd (omega (arith, (OccursAt-IsHit cand r.0).1.0, near, far))
  ]

-- A block is found within the text, also one without lines.
pub locate-within :
    (lines needle : List Text) (hint : ℤ) (cand : ℕ)
    → locate lines needle hint ≡ some cand
    → cand + length needle ≤ length lines
unfolding locate clamp
locate-within lines [] (negsuc n) cand h = ground arith
locate-within lines [] (pos n) cand h = ground arith
locate-within lines (x ∷ needle) hint cand h =
    let some_lines : x ∷ needle ≢ [] = λ e. ground arith in
    let r = locate-nearest lines (x ∷ needle) hint some_lines cand h in
    let (a, b) = OccursAt-IsHit lines (x ∷ needle) hint some_lines cand r.0 in omega (arith, a, b.0)
