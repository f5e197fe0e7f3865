-- ===== src/Suggestions/Planner/Gaps.antt =====
-- record.ts, `uncovered`: the gaps of a deletion.
use inkstave.Prelude.{
  ℕ, ◌≤◌, ◌<◌, ◌≡◌, refl, ap₂, ◌∙◌, Bool, false, not, List, [], ◌∷◌, arith, ltb, leb, Bool-cases,
  ◌⊎◌, inl, inr, ◌||◌, ◌&&◌, min, max,
}
use inkstave.Suggestions.Planner.{OwnInsertion, TextRange, uncovered_from, uncovered}
use inkstave.Suggestions.Planner.Ascending.{IsAscendingFrom}
use inkstave.Suggestions.Planner.Coverage.{covered}

-- The character at `p` lies in one of the ranges.
abbrev pub in_ranges : ℕ → List TextRange → Bool
in_ranges p [] = false
in_ranges p (r ∷ rs) = (leb r.from p && ltb p r.to) || in_ranges p rs

covered-behind :
    (p lo : ℕ) (own : List OwnInsertion) → p < lo → IsAscendingFrom lo own → covered p own ≡ false
covered-behind p lo [] h o = refl
covered-behind p lo (r ∷ own) h o = ground (arith, covered-behind p r.from own)

-- The characters from `lo` to `hi` that no insertion covers.
abbrev free : ℕ → ℕ → ℕ → List OwnInsertion → Bool
free p lo hi own = leb lo p && (ltb p hi && not (covered p own))

-- One range of the loop: the part that it skips, and the part in front of it.
module _ (p start end position : ℕ) (r : OwnInsertion) (own : List OwnInsertion) where
  free_skip :
      (r.to ≤ start) ⊎ (end ≤ r.from)
      → start ≤ position
      → free p position end own ≡ free p position end (r ∷ own)
  free_skip = ground arith

  free_rest :
      start < r.to
      → r.from < end
      → r.from ≤ position
      → start ≤ position
      → free p (max position (min r.to end)) end own ≡ free p position end (r ∷ own)
  free_rest a b c d = ground arith

  free_gap :
      position < r.from
      → r.from < end
      → IsAscendingFrom r.from own
      → ((leb position p && ltb p r.from) || free p (max position (min r.to end)) end own)
        ≡ free p position end (r ∷ own)
  free_gap a b o = elim (Bool-cases (ltb p r.from)) [
    | inl e ↦
        let behind : covered p own ≡ false = covered-behind p r.from own (ground (arith, e)) o in
        ground (arith, e, behind)
    | inr e ↦ ground (arith, e)
  ]

in_ranges-uncovered_from :
    (own : List OwnInsertion) (p start end position lo : ℕ)
    → start ≤ position
    → IsAscendingFrom lo own
    → in_ranges p (uncovered_from start end position own) ≡ free p position end own
unfolding uncovered_from
in_ranges-uncovered_from [] p start end position lo h o = ground arith
in_ranges-uncovered_from (r ∷ own) p start end position lo h o =
    elim (Bool-cases (leb r.to start)) [
      | inl a ↦ rw a (
          in_ranges-uncovered_from own p start end position r.from h o.2
          ∙ free_skip p start end position r own (inl (ground arith)) h)
      | inr a ↦ rw a (elim (Bool-cases (leb end r.from)) [
        | inl b ↦ rw b (
            in_ranges-uncovered_from own p start end position r.from h o.2
            ∙ free_skip p start end position r own (inr (ground arith)) h)
        | inr b ↦ rw b (elim (Bool-cases (ltb position (max r.from start))) [
          | inl c ↦
              let at_from : max r.from start ≡ r.from = ground arith in
              let rest =
                in_ranges-uncovered_from own p start end (max position (min r.to end)) r.from
                  (omega arith) o.2 in
              rw c (
                ap₂ (λ (x : ℕ) (y : Bool). (leb position p && ltb p x) || y) at_from rest
                ∙ free_gap p start end position r own (ground arith) (ground arith) o.2)
          | inr c ↦ rw c (
              in_ranges-uncovered_from own p start end (max position (min r.to end)) r.from
                (omega arith) o.2
              ∙ free_rest p start end position r own (ground arith) (ground arith) (ground arith) h)
        ])
      ])
    ]

-- Over ranges in the order of where they start, the gaps hold exactly the removed characters that are
-- in none of them.
pub in_ranges-uncovered :
    (own : List OwnInsertion) (p start end : ℕ)
    → IsAscendingFrom 0 own
    → in_ranges p (uncovered own start end) ≡ (leb start p && (ltb p end && not (covered p own)))
unfolding uncovered
in_ranges-uncovered own p start end o =
    in_ranges-uncovered_from own p start end start 0 (omega arith) o
