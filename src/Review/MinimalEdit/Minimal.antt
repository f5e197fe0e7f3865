-- ===== src/Review/MinimalEdit/Minimal.antt =====
-- hunks.ts, `minimalEdit`: its edit among the edits of one region.
use mathlib.Core.Bool.{true, false, false≢true}
use native.Mathlib.Decide.{dec_lt}
use inkstave.Prelude.{
  ℕ, ◌+◌, ◌-◌, ◌≤◌, ◌<◌, ◌≡◌, sym, ap, ap₂, subst, ◌∙◌, Option, ◌++◌, arith, ◌⊎◌, inl, inr, length,
  take, drop, slice, get_elem?, Text, split_three, take-append, drop-append, get_elem?-take,
  get_elem?-drop, length-take, length-drop, length-append,
}
use inkstave.Review.MinimalEdit.{MinimalEdit, same_unit, minimal_edit, apply_edit}
use inkstave.Review.MinimalEdit.Loops.{
  same_unit_refl, most, front, back, front-IsPrefix, back-IsSuffix,
}

module _ (current target : Text) where
  -- Applying the edit to the current text gives the target.
  pub apply_edit-minimal_edit : apply_edit (minimal_edit current target) current ≡ target
  unfolding minimal_edit
  apply_edit-minimal_edit =
      let room : (front current target) + (back current target) ≤ (most current target) =
        omega (arith, (front-IsPrefix current target).high, (back-IsSuffix current target).high) in
      let rest : (front current target)
            + (length current - (front current target) - (back current target))
          ≡ length current - (back current target) =
        omega arith in
      ap₂
        (λ x y.
          x ++ (slice (front current target) (length target - (back current target)) target ++ y))
        (front-IsPrefix current target).common
        (ap (λ n. drop n current) rest ∙ (back-IsSuffix current target).common)
      ∙ split_three (front current target)
          (length target - (back current target) - (front current target))
          (length target - (back current target)) target (omega arith)

  -- An edit that gives the target keeps a common prefix and a common suffix.
  module _ (e : MinimalEdit) (h : e.start + e.delete_length ≤ length current)
      (same : apply_edit e current ≡ target) where
    kept : ℕ
    kept = length current - (e.start + e.delete_length)

    length_target : length target ≡ e.start + (length e.insert + kept)
    unfolding kept
    length_target = omega (
      arith,
      ap length same,
      length-append (take e.start current) (e.insert ++ drop (e.start + e.delete_length) current),
      length-append e.insert (drop (e.start + e.delete_length) current),
      length-take e.start current,
      length-drop (e.start + e.delete_length) current,
    )

    common_front : take e.start current ≡ take e.start target
    common_front =
        sym (
          take-append e.start (take e.start current) _ (omega (arith, length-take e.start current)))
        ∙ ap (take e.start) same

    common_back : drop (length current - kept) current ≡ drop (length target - kept) target
    unfolding kept
    common_back =
        let n = e.start + e.delete_length in
        let same_place : length current - kept ≡ n = omega arith in
        let at_front : length target - kept ≡ length (take e.start current) + length e.insert =
          omega (arith, length_target, length-take e.start current) in
        ap (λ k. drop k current) same_place
        ∙ sym (drop-append (length e.insert) 0 e.insert (drop n current) (omega arith))
        ∙ sym
            (drop-append (length target - kept) (length e.insert) (take e.start current) _ at_front)
        ∙ ap (drop (length target - kept)) same

    front_bound :
        (front current target) < e.start
        → get_elem? current (front current target) ≡ get_elem? target (front current target)
    front_bound k =
        sym (get_elem?-take e.start (front current target) current k)
        ∙ ap (λ t. get_elem? t (front current target)) common_front
        ∙ get_elem?-take e.start (front current target) target k

    back_bound :
        (back current target) < kept
        → get_elem? current (length current - 1 - (back current target))
          ≡ get_elem? target (length target - 1 - (back current target))
    unfolding kept
    back_bound k =
        sym (
          get_elem?-drop (length current - kept) (kept - 1 - (back current target))
            (length current - 1 - (back current target)) current (omega arith))
        ∙ ap (λ t. get_elem? t (kept - 1 - (back current target))) common_back
        ∙ get_elem?-drop (length target - kept) (kept - 1 - (back current target))
            (length target - 1 - (back current target)) target (omega (arith, length_target))

    same_unit-ne : {o o' : Option ℕ} → o ≡ o' → same_unit o o' ≡ false → ⊥
    same_unit-ne {o} {o'} p q =
        false≢true (sym q ∙ subst (λ x. same_unit o x ≡ true) p (same_unit_refl o))

    front_stops :
        ((front current target) ≡ 0 + (most current target)) ⊎ (e.start ≤ (front current target))
    front_stops = elim (front-IsPrefix current target).ends [
      | inl x ↦ inl x
      | inr y ↦ elim (dec_lt (front current target) e.start) [
        | yes k ↦ absurd (same_unit-ne (front_bound k) y)
        | no k ↦ inr (omega arith)
      ]
    ]

    back_stops :
        ((back current target) ≡ 0 + ((most current target) - (front current target)))
        ⊎ (kept ≤ (back current target))
    back_stops = elim (back-IsSuffix current target).ends [
      | inl x ↦ inl x
      | inr y ↦ elim (dec_lt (back current target) kept) [
        | yes k ↦ absurd (same_unit-ne (back_bound k) y)
        | no k ↦ inr (omega arith)
      ]
    ]

    kept_most : e.start + kept ≤ (front current target) + (back current target)
    unfolding kept
    kept_most =
        omega (arith, front_stops, back_stops, (front-IsPrefix current target).high, length_target)

  -- Every edit of one region that takes the current text to the target deletes at least as much, and
  -- inserts at least as much.
  pub minimal_edit-minimal :
      (e : MinimalEdit)
      → e.start + e.delete_length ≤ length current
      → apply_edit e current ≡ target
      → ((minimal_edit current target).delete_length ≤ e.delete_length)
        × (length (minimal_edit current target).insert ≤ length e.insert)
  unfolding minimal_edit kept
  minimal_edit-minimal e h same =
      let bound = kept_most e h same in
      (
        omega (arith, bound),
        omega (
          arith,
          bound,
          length_target e h same,
          length-take (length target - (back current target) - (front current target))
              (drop (front current target) target),
          length-drop (front current target) target,
        ),
      )

  -- The region lies within the text.
  pub minimal_edit-within :
      (minimal_edit current target).start + (minimal_edit current target).delete_length
      ≤ length current
  unfolding minimal_edit
  minimal_edit-within =
      omega (arith, (front-IsPrefix current target).high, (back-IsSuffix current target).high)
