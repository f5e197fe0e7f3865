-- ===== src/Suggestions/Planner/Within.antt =====
-- record.ts: the caller's insertions stay within the text while the planner walks the changes.
use inkstave.Prelude.{
  ℕ, ◌+◌, ◌-◌, ◌≤◌, ◌<◌, Bool, List, [], ◌∷◌, ◌++◌, arith, All, All-append, sort_by-All, Bool-cases,
  Option-cases, inl, inr, if-elim, false, true,
}
use inkstave.Suggestions.Planner.{
  OwnInsertion, PlanOp, insertion_set, PlanInput, PlanState, create_insertion, collapse_range,
  collapse, grow_ranges, grow, move_range, touches, starts_after,
}

-- The range is not empty and lies within a text of `size` characters.
abbrev pub IsWithin : ℕ → OwnInsertion → Type 0
IsWithin size r = (r.from < r.to) × (r.to ≤ size)

-- The ranges are not empty and lie within a text of `size` characters.
abbrev pub AreWithin : ℕ → List OwnInsertion → Type 0
AreWithin size own = All (IsWithin size) own

module _ (size start end : ℕ) (start-le-end : start ≤ end) (start-le-size : start ≤ size) where
  collapse_range-AreWithin :
      (r : OwnInsertion)
      → r.from < r.to
      → r.to ≤ size + (end - start)
      → AreWithin size (collapse_range r start end).0
  unfolding collapse_range
  collapse_range-AreWithin r h k = ground arith

  -- A text of `size` characters is left once `start`..`end` has gone.
  pub collapse-AreWithin :
      (own : List OwnInsertion) (ops : List PlanOp)
      → AreWithin (size + (end - start)) own
      → AreWithin size (collapse own start end ops).0
  unfolding collapse
  collapse-AreWithin [] ops h = tt
  collapse-AreWithin (r ∷ own) ops h =
      All-append (IsWithin size) (collapse_range r start end).0 _
        (collapse_range-AreWithin r h.0.0 h.0.1)
        (collapse-AreWithin own (ops ++ (collapse_range r start end).1) h.1)

module _ (total pos size : ℕ) where
  move_range-IsWithin :
      (r : OwnInsertion) → IsWithin total r → IsWithin (total + size) (move_range r pos size)
  unfolding move_range
  move_range-IsWithin r h = ground arith

  grow_ranges-AreWithin :
      (own : List OwnInsertion) (grown : Bool) (ops : List PlanOp)
      → AreWithin total own
      → AreWithin (total + size) (grow_ranges own pos size grown ops).ranges
  unfolding grow_ranges
  grow_ranges-AreWithin [] grown ops h = tt
  grow_ranges-AreWithin (r ∷ own) grown ops h = elim (Bool-cases (touches grown r pos)) [
    | inl e ↦
        let set = insertion_set r.id r.from (r.to + size) r.created_at in
        rw e ((omega arith, omega arith), grow_ranges-AreWithin own true (ops ++ set ∷ []) h.1)
    | inr e ↦ rw e (move_range-IsWithin r h.0, grow_ranges-AreWithin own grown ops h.1)
  ]

  create_insertion-AreWithin :
      (input : PlanInput) (s : PlanState)
      → pos ≤ total
      → 0 < size
      → AreWithin (total + size) s.own
      → AreWithin (total + size) (create_insertion input pos size s).own
  unfolding create_insertion
  create_insertion-AreWithin input s h k w =
      sort_by-All starts_after (IsWithin (total + size)) _
        (All-append (IsWithin (total + size)) s.own _ w ((omega arith, omega arith), tt))

  -- A text of `total` characters has got `size` more at `pos`.
  pub grow-AreWithin :
      (input : PlanInput) (s : PlanState)
      → pos ≤ total
      → 0 < size
      → AreWithin total s.own
      → AreWithin (total + size) (grow input pos size s).own
  unfolding grow
  grow-AreWithin input s h k w =
      let g = grow_ranges s.own pos size false s.ops in
      let kept = grow_ranges-AreWithin s.own false s.ops w in
      if-elim (λ (s' : PlanState). AreWithin (total + size) s'.own) g.grown kept
        (elim (Option-cases input.author) [
          | inl e ↦ rw e kept
          | inr (author, e) ↦
              rw e (
                create_insertion-AreWithin input (record s { own = g.ranges; ops = g.ops }) h k
                  kept)
        ])
