-- ===== src/Suggestions/Planner/Walk.antt =====
-- record.ts, `planEdit`: what `collapse` and `grow` keep of the caller's insertions, the walk over the
-- changes keeps.
use mathlib.Core.List.{foldl}
use inkstave.Prelude.{
  ℕ, ◌+◌, ◌-◌, ◌≤◌, ◌<◌, List, [], ◌∷◌, ◌++◌, arith, ltb, Bool-cases, inl, inr, length,
}
use inkstave.Suggestions.Planner.{
  OwnInsertion, TextChange, PlanOp, text_delete, text_insert, PlanInput, PlanState, collapse, grow,
  record_deletion, add_deletion, plan_removal, plan_insertion, plan_change,
}

module _ (input : PlanInput) (Q : List OwnInsertion → Type 0)
    (cut : (own : List OwnInsertion) (start end : ℕ) (ops : List PlanOp)
      → start ≤ end
      → Q own
      → Q (collapse own start end ops).0)
    (put : (pos size : ℕ) (s : PlanState)
      → 0 < size
      → Q s.own
      → Q (grow input pos size s).own) where
  record_deletion-keeps :
      (start end : ℕ) (change : TextChange) (s : PlanState)
      → start ≤ end
      → Q s.own
      → Q (record_deletion input start end change s).own
  unfolding record_deletion add_deletion
  record_deletion-keeps start end change s h q = ground (arith, cut s.own start end s.ops h q)

  plan_removal-keeps :
      (start : ℕ) (change : TextChange) (s : PlanState)
      → Q s.own
      → Q (plan_removal input start change s).own
  unfolding plan_removal
  plan_removal-keeps start change s q =
      let end = start + (change.to - change.from) in
      ground (
        arith,
        record_deletion-keeps start end change
            (record s { ops = s.ops ++ text_delete start end ∷ [] }) (omega arith) q,
      )

  plan_insertion-keeps :
      (start : ℕ) (change : TextChange) (s : PlanState)
      → Q s.own
      → Q (plan_insertion input start change s).own
  unfolding plan_insertion
  plan_insertion-keeps start change s q = elim (Bool-cases (ltb 0 (length change.insert))) [
    | inl e ↦ rw e (
        ground (
          arith,
          put start (length change.insert)
              (record s { ops = s.ops ++ text_insert start change.insert ∷ [] }) (ground arith) q,
        ))
    | inr e ↦ rw e q
  ]

  pub plan_change-keeps :
      (s : PlanState) (change : TextChange) → Q s.own → Q (plan_change input s change).own
  unfolding plan_change
  plan_change-keeps s change q =
      let start = change.from + s.inserted - s.removed in
      plan_insertion-keeps start change (plan_removal input start change s)
        (plan_removal-keeps start change s q)

  pub plan_changes-keeps :
      (changes : List TextChange) (s : PlanState)
      → Q s.own
      → Q (foldl (plan_change input) s changes).own
  plan_changes-keeps [] s q = q
  plan_changes-keeps (c ∷ changes) s q =
      plan_changes-keeps changes (plan_change input s c) (plan_change-keeps s c q)
