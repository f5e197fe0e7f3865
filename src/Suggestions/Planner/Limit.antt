-- ===== src/Suggestions/Planner/Limit.antt =====
-- The limit on what the records of one edit keep, and the plain edit, which records nothing.
use mathlib.Core.List.{foldl}
use inkstave.Prelude.{
  ℕ, ◌+◌, ◌-◌, ◌≤◌, ◌≡◌, refl, ◌∙◌, Bool, true, false, none, List, [], ◌∷◌, ◌++◌, arith, Bool-cases,
  inl, inr, length, All, All-append, Text,
}
use inkstave.Suggestions.Planner.{
  OwnInsertion, TextChange, PlanOp, text_delete, text_insert, insertion_set, insertion_remove,
  deletion_add, PlanInput, PlanState, collapse_range, collapse, touches, grow_ranges, grow,
  create_insertion, add_deletion, record_deletion, plan_removal, plan_insertion, plan_change,
  plan_start, plan_edit, max_deleted,
}

-- The operations that change the text.
abbrev pub is_text_op : PlanOp → Bool
is_text_op (text_delete _ _) = true
is_text_op (text_insert _ _) = true
is_text_op _ = false

-- The characters that the records of a plan keep.
abbrev pub kept_size : List PlanOp → ℕ
kept_size [] = 0
kept_size (deletion_add id pos text ∷ ops) = length text + kept_size ops
kept_size (text_delete from to ∷ ops) = kept_size ops
kept_size (text_insert pos text ∷ ops) = kept_size ops
kept_size (insertion_set id from to c ∷ ops) = kept_size ops
kept_size (insertion_remove id ∷ ops) = kept_size ops

kept_size-append : (xs ys : List PlanOp) → kept_size (xs ++ ys) ≡ kept_size xs + kept_size ys
kept_size-append [] ys = omega arith
kept_size-append (deletion_add id pos text ∷ ops) ys = omega (arith, kept_size-append ops ys)
kept_size-append (text_delete from to ∷ ops) ys = kept_size-append ops ys
kept_size-append (text_insert pos text ∷ ops) ys = kept_size-append ops ys
kept_size-append (insertion_set id from to c ∷ ops) ys = kept_size-append ops ys
kept_size-append (insertion_remove id ∷ ops) ys = kept_size-append ops ys

kept_size-collapse_range :
    (r : OwnInsertion) (start end : ℕ) → kept_size (collapse_range r start end).1 ≡ 0
unfolding collapse_range
kept_size-collapse_range r start end = ground arith

kept_size-collapse :
    (own : List OwnInsertion) (start end : ℕ) (ops : List PlanOp)
    → kept_size (collapse own start end ops).1 ≡ kept_size ops
unfolding collapse
kept_size-collapse [] start end ops = refl
kept_size-collapse (r ∷ own) start end ops =
    let pushed = (collapse_range r start end).1 in
    omega (
      arith,
      kept_size-collapse own start end (ops ++ pushed),
      kept_size-append ops pushed,
      kept_size-collapse_range r start end,
    )

kept_size-grow_ranges :
    (own : List OwnInsertion) (pos size : ℕ) (grown : Bool) (ops : List PlanOp)
    → kept_size (grow_ranges own pos size grown ops).ops ≡ kept_size ops
unfolding grow_ranges
kept_size-grow_ranges [] pos size grown ops = refl
kept_size-grow_ranges (r ∷ own) pos size grown ops =
    let set = insertion_set r.id r.from (r.to + size) r.created_at in
    elim (Bool-cases (touches grown r pos)) [
      | inl e ↦ rw e (
          omega (
            arith,
            kept_size-grow_ranges own pos size true (ops ++ set ∷ []),
            kept_size-append ops (set ∷ []),
          ))
      | inr e ↦ rw e (kept_size-grow_ranges own pos size grown ops)
    ]

-- What the loop has counted is what its operations keep.
abbrev IsCounted : PlanState → Type 0
IsCounted s = kept_size s.ops ≡ s.deleted

grow-IsCounted :
    (input : PlanInput) (pos size : ℕ) (s : PlanState)
    → IsCounted s
    → IsCounted (grow input pos size s)
unfolding grow create_insertion
grow-IsCounted input pos size s h =
    let g = grow_ranges s.own pos size false s.ops in
    ground (
      arith,
      kept_size-grow_ranges s.own pos size false s.ops,
      kept_size-append g.ops (insertion_set (input.new_id s.taken) pos (pos + size) input.now ∷ []),
    )

add_deletion-IsCounted :
    (input : PlanInput) (start : ℕ) (text : Text) (s : PlanState)
    → IsCounted s
    → IsCounted (add_deletion input start text s)
unfolding add_deletion
add_deletion-IsCounted input start text s h =
    ground (arith, kept_size-append s.ops (deletion_add (input.new_id s.taken) start text ∷ []))

record_deletion-IsCounted :
    (input : PlanInput) (start end : ℕ) (change : TextChange) (s : PlanState)
    → IsCounted s
    → IsCounted (record_deletion input start end change s)
unfolding record_deletion
record_deletion-IsCounted input start end change s h =
    add_deletion-IsCounted input start _ _ (kept_size-collapse s.own start end s.ops ∙ h)

plan_removal-IsCounted :
    (input : PlanInput) (start : ℕ) (change : TextChange) (s : PlanState)
    → IsCounted s
    → IsCounted (plan_removal input start change s)
unfolding plan_removal
plan_removal-IsCounted input start change s h =
    let end = start + (change.to - change.from) in
    let cut = record s { ops = s.ops ++ text_delete start end ∷ [] } in
    let counted : IsCounted cut =
      omega (arith, kept_size-append s.ops (text_delete start end ∷ [])) in
    ground (arith, record_deletion-IsCounted input start end change cut counted)

plan_insertion-IsCounted :
    (input : PlanInput) (start : ℕ) (change : TextChange) (s : PlanState)
    → IsCounted s
    → IsCounted (plan_insertion input start change s)
unfolding plan_insertion
plan_insertion-IsCounted input start change s h =
    let put = record s { ops = s.ops ++ text_insert start change.insert ∷ [] } in
    let counted : IsCounted put =
      omega (arith, kept_size-append s.ops (text_insert start change.insert ∷ [])) in
    ground (arith, grow-IsCounted input start (length change.insert) put counted)

plan_changes-IsCounted :
    (input : PlanInput) (changes : List TextChange) (s : PlanState)
    → IsCounted s
    → IsCounted (foldl (plan_change input) s changes)
unfolding plan_change
plan_changes-IsCounted input [] s h = h
plan_changes-IsCounted input (c ∷ changes) s h =
    let start = c.from + s.inserted - s.removed in
    plan_changes-IsCounted input changes (plan_change input s c) (
      plan_insertion-IsCounted input start c (plan_removal input start c s)
        (plan_removal-IsCounted input start c s h))

-- The records of a plan never keep more removed text than the limit: an edit that would is blocked,
-- and a blocked plan does nothing at all.
pub plan_edit-limit :
    (input : PlanInput)
    → (kept_size (plan_edit input).ops ≤ max_deleted input)
      × ((plan_edit input).blocked ≡ true → (plan_edit input).ops ≡ [])
unfolding plan_edit
plan_edit-limit input =
    ground (arith, plan_changes-IsCounted input input.changes (plan_start input) refl)

-- The operations of a plain edit.
abbrev pub AreText : List PlanOp → Type 0
AreText = All (λ op. is_text_op op ≡ true)

abbrev IsPlain : PlanState → Type 0
IsPlain s = AreText s.ops × (s.deleted ≡ 0)

AreText-push :
    (ops : List PlanOp) (op : PlanOp)
    → AreText ops
    → is_text_op op ≡ true
    → AreText (ops ++ op ∷ [])
AreText-push ops op h e = All-append (λ o. is_text_op o ≡ true) ops (op ∷ []) h (e, tt)

module _ (input : PlanInput) (a : input.author ≡ none) where
  plan_removal-IsPlain :
      (start : ℕ) (c : TextChange) (s : PlanState)
      → IsPlain s
      → IsPlain (plan_removal input start c s)
  unfolding plan_removal
  plan_removal-IsPlain start c s h =
      let end = start + (c.to - c.from) in
      ground (arith, AreText-push s.ops (text_delete start end) h.0 refl)

  plan_insertion-IsPlain :
      (start : ℕ) (c : TextChange) (s : PlanState)
      → IsPlain s
      → IsPlain (plan_insertion input start c s)
  unfolding plan_insertion
  plan_insertion-IsPlain start c s h =
      ground (arith, AreText-push s.ops (text_insert start c.insert) h.0 refl)

  plan_changes-IsPlain :
      (changes : List TextChange) (s : PlanState)
      → IsPlain s
      → IsPlain (foldl (plan_change input) s changes)
  unfolding plan_change
  plan_changes-IsPlain [] s h = h
  plan_changes-IsPlain (c ∷ changes) s h =
      let start = c.from + s.inserted - s.removed in
      plan_changes-IsPlain changes (plan_change input s c) (
        plan_insertion-IsPlain start c (plan_removal input start c s)
          (plan_removal-IsPlain start c s h))

-- A plain edit, with no author, is never blocked and touches no record.
pub plan_edit_plain :
    (input : PlanInput)
    → input.author ≡ none
    → ((plan_edit input).blocked ≡ false) × AreText (plan_edit input).ops
unfolding plan_edit
plan_edit_plain input a =
    ground (arith, plan_changes-IsPlain input a input.changes (plan_start input) (tt, refl))
