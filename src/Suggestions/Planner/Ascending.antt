-- ===== src/Suggestions/Planner/Ascending.antt =====
-- record.ts: the caller's insertions stay in the order of where they start, also those that overlap.
use mathlib.Core.List.{foldl}
use inkstave.Prelude.{
  ℕ, ◌+◌, ◌-◌, ◌≤◌, ◌<◌, ◌≡◌, Bool, true, false, ◌||◌, ◌&&◌, List, [], ◌∷◌, ◌++◌, arith, ltb, leb,
  if◌then◌else◌, if-elim, Option-cases, inl, inr, min, All, All-append, IsSorted, sort_by-All,
  sort_by-IsSorted,
}
use inkstave.Suggestions.Planner.{
  OwnInsertion, TextChange, PlanOp, insertion_set, PlanInput, PlanState, touches, move_range,
  create_insertion, collapse_range, collapse, grow_ranges, grow, starts_after, plan_change,
}
use inkstave.Suggestions.Planner.Walk.{plan_changes-keeps}

-- The ranges are not empty, and from `lo` on none starts in front of an earlier one.
abbrev pub IsAscendingFrom : ℕ → List OwnInsertion → Type 0
IsAscendingFrom lo [] = Unit
IsAscendingFrom lo (r ∷ rs) = (lo ≤ r.from) × (r.from < r.to) × IsAscendingFrom r.from rs

IsAscendingFrom-le :
    (a b : ℕ) (rs : List OwnInsertion) → a ≤ b → IsAscendingFrom b rs → IsAscendingFrom a rs
IsAscendingFrom-le a b [] h o = tt
IsAscendingFrom-le a b (r ∷ rs) h o = (omega arith, o.1, o.2)

-- Where a range that starts at `x` starts once `start`..`end` is removed.
abbrev start_after_cut : ℕ → ℕ → ℕ → ℕ
start_after_cut start end x = if leb end x then x - (end - start) else min x start

collapse-IsAscendingFrom :
    (own : List OwnInsertion) (start end lo : ℕ) (ops : List PlanOp)
    → start ≤ end
    → IsAscendingFrom lo own
    → IsAscendingFrom (start_after_cut start end lo) (collapse own start end ops).0
unfolding collapse collapse_range
collapse-IsAscendingFrom [] start end lo ops h o = tt
collapse-IsAscendingFrom (r ∷ own) start end lo ops h o =
    let ops' = ops ++ (collapse_range r start end).1 in
    let rest = (collapse own start end ops').0 in
    ground (
      arith,
      collapse-IsAscendingFrom own start end r.from ops' h o.2,
      IsAscendingFrom-le (start_after_cut start end lo) (start_after_cut start end r.from) rest,
    )

-- Where a range that starts at `x` starts once `size` characters went in at `pos`.
abbrev start_after_put : ℕ → ℕ → Bool → ℕ → ℕ
start_after_put pos size grown x = if ltb pos x || (grown && leb pos x) then x + size else x

grow_ranges-IsAscendingFrom :
    (pos size : ℕ) (own : List OwnInsertion) (lo : ℕ) (grown : Bool) (ops : List PlanOp)
    → IsAscendingFrom lo own
    → IsAscendingFrom
        (start_after_put pos size grown lo)
        (grow_ranges own pos size grown ops).ranges
unfolding grow_ranges move_range touches
grow_ranges-IsAscendingFrom pos size [] lo grown ops o = tt
grow_ranges-IsAscendingFrom pos size (r ∷ own) lo grown ops o =
    let ops' = ops ++ insertion_set r.id r.from (r.to + size) r.created_at ∷ [] in
    ground (
      arith,
      grow_ranges-IsAscendingFrom pos size own r.from grown ops o.2,
      grow_ranges-IsAscendingFrom pos size own r.from true ops' o.2,
      IsAscendingFrom-le r.from (start_after_put pos size true r.from)
          (grow_ranges own pos size true ops').ranges,
    )

abbrev IsNonempty : OwnInsertion → Type 0
IsNonempty r = r.from < r.to

IsAscendingFrom-IsNonempty :
    (lo : ℕ) (rs : List OwnInsertion) → IsAscendingFrom lo rs → All IsNonempty rs
IsAscendingFrom-IsNonempty lo [] o = tt
IsAscendingFrom-IsNonempty lo (r ∷ rs) o = (o.1, IsAscendingFrom-IsNonempty r.from rs o.2)

All-from :
    (r : OwnInsertion) (rs : List OwnInsertion)
    → All (λ x. starts_after r x ≡ false) rs
    → All (λ (x : OwnInsertion). r.from ≤ x.from) rs
All-from r [] h = tt
All-from r (x ∷ rs) h = (ground (arith, h.0), All-from r rs h.1)

IsSorted-IsAscendingFrom :
    (lo : ℕ) (rs : List OwnInsertion)
    → All (λ (x : OwnInsertion). lo ≤ x.from) rs
    → All IsNonempty rs
    → IsSorted starts_after rs
    → IsAscendingFrom lo rs
IsSorted-IsAscendingFrom lo [] f k s = tt
IsSorted-IsAscendingFrom lo (r ∷ rs) f k s =
    (f.0, k.0, IsSorted-IsAscendingFrom r.from rs (All-from r rs s.0) k.1 s.1)

All-from_zero : (rs : List OwnInsertion) → All (λ (x : OwnInsertion). 0 ≤ x.from) rs
All-from_zero [] = tt
All-from_zero (r ∷ rs) = (omega arith, All-from_zero rs)

create_insertion-IsAscendingFrom :
    (input : PlanInput) (pos size : ℕ) (s : PlanState)
    → 0 < size
    → IsAscendingFrom 0 s.own
    → IsAscendingFrom 0 (create_insertion input pos size s).own
unfolding create_insertion
create_insertion-IsAscendingFrom input pos size s h o =
    IsSorted-IsAscendingFrom 0 _ (All-from_zero _)
      (sort_by-All starts_after IsNonempty _
        (All-append IsNonempty s.own _ (IsAscendingFrom-IsNonempty 0 s.own o) (omega arith, tt)))
      (sort_by-IsSorted starts_after (λ a b h. ground (arith, h))
        (λ a b c h k. ground (arith, h, k)) _)

grow-IsAscendingFrom :
    (input : PlanInput) (pos size : ℕ) (s : PlanState)
    → 0 < size
    → IsAscendingFrom 0 s.own
    → IsAscendingFrom 0 (grow input pos size s).own
unfolding grow
grow-IsAscendingFrom input pos size s h o =
    let g = grow_ranges s.own pos size false s.ops in
    let kept : IsAscendingFrom 0 g.ranges =
      IsAscendingFrom-le 0 (start_after_put pos size false 0) g.ranges (omega arith)
        (grow_ranges-IsAscendingFrom pos size s.own 0 false s.ops o) in
    if-elim (λ (s' : PlanState). IsAscendingFrom 0 s'.own) g.grown kept
      (elim (Option-cases input.author) [
        | inl e ↦ rw e kept
        | inr (author, e) ↦ rw e (
            create_insertion-IsAscendingFrom input pos size
              (record s { own = g.ranges; ops = g.ops }) h kept)
      ])

-- Each change of an edit keeps the order.
pub plan_changes-IsAscendingFrom :
    (input : PlanInput) (changes : List TextChange) (s : PlanState)
    → IsAscendingFrom 0 s.own
    → IsAscendingFrom 0 (foldl (plan_change input) s changes).own
plan_changes-IsAscendingFrom input =
    plan_changes-keeps input (IsAscendingFrom 0)
      (λ own start end ops h o.
        IsAscendingFrom-le 0 (start_after_cut start end 0) (collapse own start end ops).0
          (omega arith) (collapse-IsAscendingFrom own start end 0 ops h o))
      (grow-IsAscendingFrom input)
