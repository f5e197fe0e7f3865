-- ===== src/Suggestions/Planner/Order.antt =====
-- record.ts: the order of the caller's insertions.
use mathlib.Core.List.{foldl}
use inkstave.Prelude.{
  ℕ, ◌+◌, ◌-◌, ◌≤◌, ◌<◌, ◌≡◌, refl, Bool, true, false, List, [], ◌∷◌, ◌++◌, arith, ltb, leb,
  if◌then◌else◌, Bool-cases, Option-cases, ◌⊎◌, inl, inr, sort_by, insert_sorted,
}
use inkstave.Suggestions.Planner.{
  OwnInsertion, TextChange, PlanOp, insertion_set, PlanInput, PlanState, touches, create_insertion,
  collapse_range, collapse, Grown, grow_ranges, grow, starts_after, plan_change, plan_start,
}
use inkstave.Suggestions.Planner.Walk.{plan_change-keeps, plan_changes-keeps}

-- The ranges lie one behind the other from `lo` on; two may touch.
abbrev pub IsOrderedFrom : ℕ → List OwnInsertion → Type 0
IsOrderedFrom lo [] = Unit
IsOrderedFrom lo (r ∷ rs) = (lo ≤ r.from) × (r.from < r.to) × IsOrderedFrom r.to rs

pub IsOrderedFrom-le :
    (a b : ℕ) (rs : List OwnInsertion) → a ≤ b → IsOrderedFrom b rs → IsOrderedFrom a rs
IsOrderedFrom-le a b [] h o = tt
IsOrderedFrom-le a b (r ∷ rs) h o = (omega arith, o.1, o.2)

-- Where a position of the text is once `start`..`end` is removed.
abbrev pub shrink : ℕ → ℕ → ℕ → ℕ
shrink start end x = if leb x start then x else if leb end x then x - (end - start) else start

pub collapse-IsOrderedFrom :
    (own : List OwnInsertion) (start end lo : ℕ) (ops : List PlanOp)
    → start ≤ end
    → IsOrderedFrom lo own
    → IsOrderedFrom (shrink start end lo) (collapse own start end ops).0
unfolding collapse collapse_range
collapse-IsOrderedFrom [] start end lo ops h o = tt
collapse-IsOrderedFrom (r ∷ own) start end lo ops h o =
    let ops' = ops ++ (collapse_range r start end).1 in
    let rest = (collapse own start end ops').0 in
    ground (
      arith,
      collapse-IsOrderedFrom own start end r.to ops' h o.2,
      IsOrderedFrom-le (shrink start end lo) (shrink start end r.to) rest,
    )

-- Behind the place of the insertion every range moves.
module _ (pos size : ℕ) where
  pub grow_ranges-IsOrderedFrom_behind :
      (own : List OwnInsertion) (lo : ℕ) (grown : Bool) (ops : List PlanOp)
      → pos ≤ lo
      → (grown ≡ true) ⊎ (pos < lo)
      → IsOrderedFrom lo own
      → IsOrderedFrom (lo + size) (grow_ranges own pos size grown ops).ranges
  unfolding grow_ranges
  grow_ranges-IsOrderedFrom_behind [] lo grown ops h g o = tt
  grow_ranges-IsOrderedFrom_behind (r ∷ own) lo grown ops h g o =
      let untouched : touches grown r pos ≡ false = ground arith in
      rw untouched (
        ground (
          arith,
          grow_ranges-IsOrderedFrom_behind own r.to grown ops (omega arith) (ground arith) o.2,
        ))

  -- The loop without the new insertion keeps the order.
  pub grow_ranges-IsOrderedFrom :
      (own : List OwnInsertion) (lo : ℕ) (ops : List PlanOp)
      → IsOrderedFrom lo own
      → IsOrderedFrom lo (grow_ranges own pos size false ops).ranges
  unfolding grow_ranges
  grow_ranges-IsOrderedFrom [] lo ops o = tt
  grow_ranges-IsOrderedFrom (r ∷ own) lo ops o =
      let set = insertion_set r.id r.from (r.to + size) r.created_at in
      let ops' = ops ++ set ∷ [] in
      ground (
        arith,
        grow_ranges-IsOrderedFrom own r.to ops o.2,
        grow_ranges-IsOrderedFrom_behind own r.to false ops,
        grow_ranges-IsOrderedFrom_behind own r.to true ops',
        IsOrderedFrom-le r.to (r.to + size) (grow_ranges own pos size false ops).ranges,
      )

  pub grown_stays :
      (own : List OwnInsertion) (ops : List PlanOp)
      → (grow_ranges own pos size true ops).grown ≡ true
  unfolding grow_ranges
  grown_stays [] ops = refl
  grown_stays (r ∷ own) ops = grown_stays own ops

-- Where the sort puts an insertion that was pushed behind a sorted list.
unfoldable pub place : OwnInsertion → List OwnInsertion → List OwnInsertion
place c [] = c ∷ []
place c (r ∷ rs) = if ltb c.from r.from then c ∷ r ∷ rs else r ∷ place c rs

insert_sorted-front :
    (r : OwnInsertion) (lo : ℕ) (rs : List OwnInsertion)
    → r.from ≤ lo
    → IsOrderedFrom lo rs
    → insert_sorted starts_after r rs ≡ r ∷ rs
unfolding insert_sorted
insert_sorted-front r lo [] h o = refl
insert_sorted-front r lo (x ∷ rs) h o = ground arith

insert_sorted-place :
    (r c : OwnInsertion) (lo : ℕ) (rs : List OwnInsertion)
    → r.from ≤ lo
    → r.from ≤ c.from
    → IsOrderedFrom lo rs
    → insert_sorted starts_after r (place c rs) ≡ r ∷ place c rs
unfolding insert_sorted place
insert_sorted-place r c lo [] h k o = ground arith
insert_sorted-place r c lo (x ∷ rs) h k o = ground arith

place_first :
    (c : OwnInsertion) (lo : ℕ) (rs : List OwnInsertion)
    → c.from < lo
    → IsOrderedFrom lo rs
    → place c rs ≡ c ∷ rs
unfolding place
place_first c lo [] h o = refl
place_first c lo (x ∷ rs) h o = ground arith

pub sort_by-place :
    (c : OwnInsertion) (lo : ℕ) (rs : List OwnInsertion)
    → IsOrderedFrom lo rs
    → sort_by starts_after (rs ++ c ∷ []) ≡ place c rs
unfolding sort_by place
sort_by-place c lo [] o = refl
sort_by-place c lo (r ∷ rs) o =
    rw (sort_by-place c r.to rs o.2) (elim (Bool-cases (ltb c.from r.from)) [
      | inl e ↦
          rw (e, place_first c r.to rs (ground arith) o.2)
            (unfold insert_sorted in
              rw (insert_sorted-front r r.to rs (omega arith) o.2) (ground arith))
      | inr e ↦ rw e (insert_sorted-place r c r.to rs (omega arith) (ground arith) o.2)
    ])

place-IsOrderedFrom_behind :
    (c : OwnInsertion) (lo : ℕ) (rs : List OwnInsertion)
    → c.from < c.to
    → IsOrderedFrom c.to rs
    → lo ≤ c.from
    → IsOrderedFrom lo (place c rs)
unfolding place
place-IsOrderedFrom_behind c lo [] h o k = (k, h, tt)
place-IsOrderedFrom_behind c lo (r ∷ rs) h o k = ground arith

-- Where nothing was touched, the new insertion has room in front of the first range behind it.
place-grow_ranges-IsOrderedFrom :
    (c : OwnInsertion) (pos size : ℕ) (own : List OwnInsertion) (lo : ℕ) (ops : List PlanOp)
    → c.from ≡ pos
    → c.to ≡ pos + size
    → 0 < size
    → lo ≤ pos
    → IsOrderedFrom lo own
    → (grow_ranges own pos size false ops).grown ≡ false
    → IsOrderedFrom lo (place c (grow_ranges own pos size false ops).ranges)
unfolding grow_ranges place
place-grow_ranges-IsOrderedFrom c pos size [] lo ops e f g h o q = ground arith
place-grow_ranges-IsOrderedFrom c pos size (r ∷ own) lo ops e f g h o q =
    let set = insertion_set r.id r.from (r.to + size) r.created_at in
    let rest = (grow_ranges own pos size false ops).ranges in
    ground (
      arith,
      grown_stays pos size own (ops ++ set ∷ []),
      place-grow_ranges-IsOrderedFrom c pos size own r.to ops e f g,
      grow_ranges-IsOrderedFrom_behind pos size own r.to false ops,
    )

create_insertion-IsOrderedFrom :
    (input : PlanInput) (pos size : ℕ) (own : List OwnInsertion) (ops : List PlanOp) (s : PlanState)
    → 0 < size
    → IsOrderedFrom 0 own
    → (grow_ranges own pos size false ops).grown ≡ false
    → s.own ≡ (grow_ranges own pos size false ops).ranges
    → IsOrderedFrom 0 (create_insertion input pos size s).own
unfolding create_insertion
create_insertion-IsOrderedFrom input pos size own ops s g o q e = rw e (
    rw (sort_by-place created 0 _ (grow_ranges-IsOrderedFrom pos size own 0 ops o))
      (place-grow_ranges-IsOrderedFrom created pos size own 0 ops refl refl g (omega arith) o q))
  where
    created : OwnInsertion
    created = record {
      id = input.new_id s.taken;
      from = pos;
      to = pos + size;
      created_at = input.now;
    }

-- Typing keeps the order: a touched insertion grows, one behind moves, and a new one has room.
pub grow-IsOrderedFrom :
    (input : PlanInput) (pos size : ℕ) (s : PlanState)
    → 0 < size
    → IsOrderedFrom 0 s.own
    → IsOrderedFrom 0 (grow input pos size s).own
unfolding grow
grow-IsOrderedFrom input pos size s h o = elim (Bool-cases g.grown) [
  | inl e ↦ rw e kept
  | inr e ↦ rw e (elim (Option-cases input.author) [
    | inl f ↦ rw f kept
    | inr (a, f) ↦ rw f (
        create_insertion-IsOrderedFrom input pos size s.own s.ops
          (record s { own = g.ranges; ops = g.ops }) h o e refl)
  ])
]
  where
    g : Grown
    g = grow_ranges s.own pos size false s.ops

    kept : IsOrderedFrom 0 g.ranges
    kept = grow_ranges-IsOrderedFrom pos size s.own 0 s.ops o

collapse-IsOrderedFrom_start :
    (own : List OwnInsertion) (start end : ℕ) (ops : List PlanOp)
    → start ≤ end
    → IsOrderedFrom 0 own
    → IsOrderedFrom 0 (collapse own start end ops).0
collapse-IsOrderedFrom_start own start end ops h o =
    IsOrderedFrom-le 0 (shrink start end 0) (collapse own start end ops).0 (omega arith)
      (collapse-IsOrderedFrom own start end 0 ops h o)

-- Each change of the edit keeps the caller's insertions in order, apart and not empty.
pub plan_change-IsOrderedFrom :
    (input : PlanInput) (s : PlanState) (change : TextChange)
    → IsOrderedFrom 0 s.own
    → IsOrderedFrom 0 (plan_change input s change).own
plan_change-IsOrderedFrom input =
    plan_change-keeps input (IsOrderedFrom 0) collapse-IsOrderedFrom_start
      (grow-IsOrderedFrom input)

pub plan_changes-IsOrderedFrom :
    (input : PlanInput) (changes : List TextChange) (s : PlanState)
    → IsOrderedFrom 0 s.own
    → IsOrderedFrom 0 (foldl (plan_change input) s changes).own
plan_changes-IsOrderedFrom input =
    plan_changes-keeps input (IsOrderedFrom 0) collapse-IsOrderedFrom_start
      (grow-IsOrderedFrom input)

-- The insertions that edits leave, each planned with those that the one before it left, from none on.
pub data LeftByEdits : List OwnInsertion → Type 0 where
  untouched : LeftByEdits []
  edited :
      (input : PlanInput)
      → LeftByEdits input.own
      → LeftByEdits (foldl (plan_change input) (plan_start input) input.changes).own

pub LeftByEdits-IsOrderedFrom : {own : List OwnInsertion} → LeftByEdits own → IsOrderedFrom 0 own
LeftByEdits-IsOrderedFrom untouched = tt
LeftByEdits-IsOrderedFrom (edited input left) =
    plan_changes-IsOrderedFrom input input.changes (plan_start input)
      (LeftByEdits-IsOrderedFrom left)
