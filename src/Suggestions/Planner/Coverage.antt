-- ===== src/Suggestions/Planner/Coverage.antt =====
-- record.ts, `collapse` and `grow`: the characters that the caller's insertions cover.
use mathlib.Core.List.{foldl}
use inkstave.Prelude.{
  ℕ, ◌+◌, ◌-◌, ◌≤◌, ◌<◌, ◌≡◌, refl, ap₂, ◌∙◌, Bool, true, false, some, List, [], ◌∷◌, ◌++◌, arith,
  ltb, leb, if◌then◌else◌, Bool-cases, ◌⊎◌, inl, inr, ◌||◌, ◌&&◌,
}
use inkstave.Suggestions.Planner.{
  OwnInsertion, PlanOp, insertion_set, PlanInput, PlanState, SuggestionAuthor, touches,
  create_insertion, collapse_range, collapse, Grown, grow_ranges, grow, TextChange, plan_change,
  plan_start,
}
use inkstave.Suggestions.Planner.Order.{
  IsOrderedFrom, grow_ranges-IsOrderedFrom_behind, grow_ranges-IsOrderedFrom, grown_stays, place,
  sort_by-place, plan_changes-IsOrderedFrom,
}

abbrev pub covers : ℕ → OwnInsertion → Bool
covers p r = leb r.from p && ltb p r.to

-- The character at `p` belongs to one of the insertions.
abbrev pub covered : ℕ → List OwnInsertion → Bool
covered p [] = false
covered p (r ∷ rs) = covers p r || covered p rs

covered-append :
    (p : ℕ) (xs ys : List OwnInsertion) → covered p (xs ++ ys) ≡ (covered p xs || covered p ys)
covered-append p [] ys = refl
covered-append p (x ∷ xs) ys = ground (arith, covered-append p xs ys)

-- A position left of the deletion, and one right of it, with the place where each stood before.
module _ (p start end : ℕ) (r : OwnInsertion) (h : start ≤ end) where
  covered-collapse_range_left : p < start → covered p (collapse_range r start end).0 ≡ covers p r
  unfolding collapse_range
  covered-collapse_range_left k = ground arith

  covered-collapse_range_right :
      start ≤ p → covered p (collapse_range r start end).0 ≡ covers (p + (end - start)) r
  unfolding collapse_range
  covered-collapse_range_right k = ground arith

module _ (p start end q : ℕ)
    (same : (r : OwnInsertion) → covered p (collapse_range r start end).0 ≡ covers q r) where
  covered-collapse_at :
      (own : List OwnInsertion) (ops : List PlanOp)
      → covered p (collapse own start end ops).0 ≡ covered q own
  unfolding collapse
  covered-collapse_at [] ops = refl
  covered-collapse_at (r ∷ own) ops =
      covered-append p (collapse_range r start end).0 _
      ∙ ap₂ ◌||◌ (same r) (covered-collapse_at own (ops ++ (collapse_range r start end).1))

-- After a deletion, a character is covered exactly when it was covered where it stood before.
pub covered-collapse :
    (p start end : ℕ) (own : List OwnInsertion) (ops : List PlanOp)
    → start ≤ end
    → covered p (collapse own start end ops).0
      ≡ covered (if ltb p start then p else p + (end - start)) own
covered-collapse p start end own ops h = elim (Bool-cases (ltb p start)) [
  | inl e ↦ rw e (
      covered-collapse_at p start end p
        (λ r. covered-collapse_range_left p start end r h (ground arith)) own ops)
  | inr e ↦ rw e (
      covered-collapse_at p start end (p + (end - start))
        (λ r. covered-collapse_range_right p start end r h (ground arith)) own ops)
]

module _ (p pos size : ℕ) where
  covered-before :
      (own : List OwnInsertion) (lo : ℕ) → p < lo → IsOrderedFrom lo own → covered p own ≡ false
  covered-before [] lo h o = refl
  covered-before (r ∷ own) lo h o = ground (arith, covered-before own r.to)

  -- Ranges that stand behind the place of the insertion.
  covered-grow_ranges_behind :
      (own : List OwnInsertion) (lo : ℕ) (grown : Bool) (ops : List PlanOp)
      → pos ≤ lo
      → (grown ≡ true) ⊎ (pos < lo)
      → IsOrderedFrom lo own
      → covered (p + size) (grow_ranges own pos size grown ops).ranges ≡ covered p own
  unfolding grow_ranges
  covered-grow_ranges_behind [] lo grown ops h g o = refl
  covered-grow_ranges_behind (r ∷ own) lo grown ops h g o =
      let untouched : touches grown r pos ≡ false = ground arith in
      rw untouched (
        ground
          (arith, covered-grow_ranges_behind own r.to grown ops (omega arith) (ground arith) o.2))

-- The character at `p` after `size` characters went in at `pos`, by where it stood before.
abbrev pub covered_after : ℕ → ℕ → ℕ → List OwnInsertion → Bool
covered_after p pos size own =
    if ltb p pos then covered p own else if ltb p (pos + size) then true else covered (p - size) own

module _ (p pos size : ℕ) where
  -- In front of the place of the insertion nothing changes.
  covered-grow_ranges_left :
      (own : List OwnInsertion) (lo : ℕ) (ops : List PlanOp)
      → p < pos
      → IsOrderedFrom lo own
      → covered p (grow_ranges own pos size false ops).ranges ≡ covered p own
  unfolding grow_ranges
  covered-grow_ranges_left [] lo ops h o = refl
  covered-grow_ranges_left (r ∷ own) lo ops h o =
      let ops' = ops ++ insertion_set r.id r.from (r.to + size) r.created_at ∷ [] in
      elim (Bool-cases (touches false r pos)) [
        | inl e ↦ rw e (
            ground (
              arith,
              covered-before p pos size own r.to (ground arith) o.2,
              covered-before p pos size (grow_ranges own pos size true ops').ranges (r.to + size)
                  (ground arith)
                  (grow_ranges-IsOrderedFrom_behind pos size own r.to true ops' (ground arith)
                    (inl refl) o.2),
            ))
        | inr e ↦ rw e (ground (arith, covered-grow_ranges_left own r.to ops h o.2))
      ]

  -- The new characters are covered exactly when a range has grown.
  covered-grow_ranges_new :
      (own : List OwnInsertion) (ops : List PlanOp)
      → pos ≤ p
      → p < pos + size
      → covered p (grow_ranges own pos size false ops).ranges
        ≡ (grow_ranges own pos size false ops).grown
  unfolding grow_ranges
  covered-grow_ranges_new [] ops h k = refl
  covered-grow_ranges_new (r ∷ own) ops h k =
      let ops' = ops ++ insertion_set r.id r.from (r.to + size) r.created_at ∷ [] in
      elim (Bool-cases (touches false r pos)) [
        | inl e ↦ rw e (ground (arith, grown_stays pos size own ops'))
        | inr e ↦ rw e (ground (arith, covered-grow_ranges_new own ops h k))
      ]

  -- Behind the new characters everything is as it was, moved.
  covered-grow_ranges_right :
      (own : List OwnInsertion) (lo : ℕ) (ops : List PlanOp)
      → pos ≤ p
      → IsOrderedFrom lo own
      → covered (p + size) (grow_ranges own pos size false ops).ranges ≡ covered p own
  unfolding grow_ranges
  covered-grow_ranges_right [] lo ops h o = refl
  covered-grow_ranges_right (r ∷ own) lo ops h o =
      let ops' = ops ++ insertion_set r.id r.from (r.to + size) r.created_at ∷ [] in
      elim (Bool-cases (touches false r pos)) [
        | inl e ↦ rw e (
            ground (
              arith,
              covered-grow_ranges_behind p pos size own r.to true ops' (ground arith) (inl refl)
                  o.2,
            ))
        | inr e ↦ rw e (ground (arith, covered-grow_ranges_right own r.to ops h o.2))
      ]

covered-place :
    (p : ℕ) (c : OwnInsertion) (rs : List OwnInsertion)
    → covered p (place c rs) ≡ (covers p c || covered p rs)
unfolding place
covered-place p c [] = refl
covered-place p c (r ∷ rs) = ground (arith, covered-place p c rs)

covered-grow_ordered :
    (p pos size : ℕ) (input : PlanInput) (s : PlanState) (author : SuggestionAuthor)
    → input.author ≡ some author
    → 0 < size
    → IsOrderedFrom 0 s.own
    → covered p (grow input pos size s).own ≡ covered_after p pos size s.own
unfolding grow create_insertion
covered-grow_ordered p pos size input s author a h o = elim (Bool-cases g.grown) [
  | inl e ↦ rw e (ground (arith, left, new, right))
  | inr e ↦
      rw (e, a)
        (rw
          (
            sort_by-place created 0 g.ranges (grow_ranges-IsOrderedFrom pos size s.own 0 s.ops o),
            covered-place,
          )
          (ground (arith, left, new, right)))
]
  where
    g : Grown
    g = grow_ranges s.own pos size false s.ops

    created : OwnInsertion
    created = record {
      id = input.new_id s.taken;
      from = pos;
      to = pos + size;
      created_at = input.now;
    }

    left : p < pos → covered p g.ranges ≡ covered p s.own
    left k = covered-grow_ranges_left p pos size s.own 0 s.ops k o

    new : pos ≤ p → p < pos + size → covered p g.ranges ≡ g.grown
    new = covered-grow_ranges_new p pos size s.own s.ops

    right : pos + size ≤ p → covered p g.ranges ≡ covered (p - size) s.own
    right k =
        let e : p ≡ (p - size) + size = omega arith in
        rw (← e) at (covered-grow_ranges_right (p - size) pos size s.own 0 s.ops (omega arith) o)

-- In an edit with an author, whose own insertions are at first in order, apart and not empty, at every
-- step of the walk over the changes: after `size` characters, at least one, went in at `pos`, they are
-- covered, and every other character is covered exactly when it was covered where it stood before.
pub covered-grow :
    (p pos size : ℕ) (input : PlanInput) (before : List TextChange) (author : SuggestionAuthor)
    → input.author ≡ some author
    → 0 < size
    → IsOrderedFrom 0 input.own
    → let s = foldl (plan_change input) (plan_start input) before in
      covered p (grow input pos size s).own ≡ covered_after p pos size s.own
covered-grow p pos size input before author a h o =
    covered-grow_ordered p pos size input (foldl (plan_change input) (plan_start input) before)
      author a h (plan_changes-IsOrderedFrom input before (plan_start input) o)
