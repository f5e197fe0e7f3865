-- ===== src/Suggestions/Planner/Runs.antt =====
-- record.ts: what a plan's operations do with the text, and those that edit the records.
use inkstave.Prelude.{
  ℕ, ◌+◌, ◌-◌, ◌≤◌, ◌≡◌, refl, sym, subst, Bool, true, false, List, [], ◌∷◌, ◌++◌, arith, ltb,
  Bool-cases, inl, inr, length, take, drop, Text,
}
use inkstave.Suggestions.Planner.Within.{IsWithin, AreWithin, collapse-AreWithin}
use inkstave.Prelude.{◌<◌, if-elim}
use inkstave.Suggestions.Planner.{
  OwnInsertion, TextChange, PlanOp, text_delete, text_insert, insertion_set, insertion_remove,
  deletion_add, PlanInput, PlanState, touches, create_insertion, add_deletion, collapse_range,
  collapse, grow_ranges, grow, record_deletion,
}

abbrev pub run_op : PlanOp → Text → Text
run_op (text_delete from to) t = take from t ++ drop to t
run_op (text_insert pos text) t = take pos t ++ (text ++ drop pos t)
run_op _ t = t

-- What the operation names lies within the text: the characters that go, the place of those that come
-- in, the range of an insertion, which has a character, and the place of a deletion.
abbrev pub FitsOp : PlanOp → Text → Type 0
FitsOp (text_delete from to) t = (from ≤ to) × (to ≤ length t)
FitsOp (text_insert pos text) t = pos ≤ length t
FitsOp (insertion_set id from to created_at) t = (from < to) × (to ≤ length t)
FitsOp (insertion_remove id) t = Unit
FitsOp (deletion_add id pos text) t = pos ≤ length t

-- One after the other, the operations name places within the text of their step, and take it to `u`.
abbrev pub Runs : List PlanOp → Text → Text → Type 0
Runs [] t u = t ≡ u
Runs (op ∷ ops) t u = FitsOp op t × Runs ops (run_op op t) u

pub Runs-append :
    (xs ys : List PlanOp) (t u v : Text) → Runs xs t u → Runs ys u v → Runs (xs ++ ys) t v
Runs-append [] ys t u v p q = subst (λ w. Runs ys w v) (sym p) q
Runs-append (x ∷ xs) ys t u v (f, p) q = (f, Runs-append xs ys (run_op x t) u v p q)

module _ (t u : Text) where
  collapse_range-Runs :
      (r : OwnInsertion) (start end : ℕ)
      → start ≤ end
      → start ≤ length u
      → IsWithin (length u + (end - start)) r
      → Runs (collapse_range r start end).1 u u
  unfolding collapse_range
  collapse_range-Runs r start end h k w = ground arith

  collapse-Runs :
      (own : List OwnInsertion) (start end : ℕ) (ops : List PlanOp)
      → start ≤ end
      → start ≤ length u
      → AreWithin (length u + (end - start)) own
      → Runs ops t u
      → Runs (collapse own start end ops).1 t u
  unfolding collapse
  collapse-Runs [] start end ops h k w runs = runs
  collapse-Runs (r ∷ own) start end ops h k w runs =
      let pushed = (collapse_range r start end).1 in
      collapse-Runs own start end (ops ++ pushed) h k w.1
        (Runs-append ops pushed t u u runs (collapse_range-Runs r start end h k w.0))

  grow_ranges-Runs :
      (own : List OwnInsertion) (total pos size : ℕ) (grown : Bool) (ops : List PlanOp)
      → total + size ≤ length u
      → AreWithin total own
      → Runs ops t u
      → Runs (grow_ranges own pos size grown ops).ops t u
  unfolding grow_ranges
  grow_ranges-Runs [] total pos size grown ops h w runs = runs
  grow_ranges-Runs (r ∷ own) total pos size grown ops h w runs =
      elim (Bool-cases (touches grown r pos)) [
        | inl e ↦ rw e (
            grow_ranges-Runs own total pos size true (ops ++ set ∷ []) h w.1
              (Runs-append ops (set ∷ []) t u u runs ((omega arith, omega arith), refl)))
        | inr e ↦ rw e (grow_ranges-Runs own total pos size grown ops h w.1 runs)
      ]
    where
      set : PlanOp
      set = insertion_set r.id r.from (r.to + size) r.created_at

  create_insertion-Runs :
      (input : PlanInput) (pos size : ℕ) (s : PlanState)
      → 0 < size
      → pos + size ≤ length u
      → Runs s.ops t u
      → Runs (create_insertion input pos size s).ops t u
  unfolding create_insertion
  create_insertion-Runs input pos size s h k runs =
      Runs-append s.ops (_ ∷ []) t u u runs ((omega arith, k), refl)

  pub grow-Runs :
      (input : PlanInput) (total pos size : ℕ) (s : PlanState)
      → 0 < size
      → pos ≤ total
      → total + size ≤ length u
      → AreWithin total s.own
      → Runs s.ops t u
      → Runs (grow input pos size s).ops t u
  unfolding grow
  grow-Runs input total pos size s h k l w runs = ground (
    arith,
    grow_ranges-Runs s.own total pos size false s.ops l w runs,
    create_insertion-Runs input pos size (record s {
      own = (grow_ranges s.own pos size false s.ops).ranges;
      ops = (grow_ranges s.own pos size false s.ops).ops;
    }),
  )

  add_deletion-Runs :
      (input : PlanInput) (start : ℕ) (text : Text) (s : PlanState)
      → start ≤ length u
      → Runs s.ops t u
      → Runs (add_deletion input start text s).ops t u
  unfolding add_deletion
  add_deletion-Runs input start text s k runs = elim (Bool-cases (ltb 0 (length text))) [
    | inl e ↦ rw e (Runs-append s.ops (_ ∷ []) t u u runs (k, refl))
    | inr e ↦ rw e runs
  ]

add_deletion-own :
    (input : PlanInput) (start : ℕ) (text : Text) (s : PlanState)
    → (add_deletion input start text s).own ≡ s.own
unfolding add_deletion
add_deletion-own input start text s =
    if-elim (λ (s' : PlanState). s'.own ≡ s.own) (ltb 0 (length text)) refl refl

pub record_deletion-Runs :
    (input : PlanInput) (t u : Text) (start end : ℕ) (change : TextChange) (s : PlanState)
    → start ≤ end
    → start ≤ length u
    → AreWithin (length u + (end - start)) s.own
    → Runs s.ops t u
    → Runs (record_deletion input start end change s).ops t u
      × AreWithin (length u) (record_deletion input start end change s).own
unfolding record_deletion
record_deletion-Runs input t u start end change s h k w runs = (
  add_deletion-Runs t u input start _ _ k (collapse-Runs t u s.own start end s.ops h k w runs),
  subst (AreWithin (length u)) (sym (add_deletion-own input start _ _))
      (collapse-AreWithin (length u) start end h k s.own s.ops w),
)
