-- ===== src/Crdt/Apply/Laws.antt =====
-- diff-review/crdt-apply.ts: the text of a shared text after an edit.
use mathlib.Core.List.{foldr}
use inkstave.Prelude.{
  ℕ, ◌+◌, ◌-◌, ◌≤◌, ◌≡◌, refl, sym, ap, ap₂, ◌∙◌, Bool, true, false, List, [], ◌∷◌, ◌++◌,
  if◌then◌else◌, ltb, length, Text, text_eq, text_eq_sound, take, drop, Bool-cases, inl, inr, arith,
  ◌⊎◌, take-append, drop-append, take-append-drop, length-append, length-take,
}
use inkstave.Edits.{Edit, splice_edit, AreApart}
use inkstave.Crdt.{YText}
use inkstave.Crdt.Apply.{apply_target_to_ytext, write_splice}
use inkstave.Review.MinimalEdit.{MinimalEdit, minimal_edit}
use inkstave.Review.MinimalEdit.Minimal.{apply_edit-minimal_edit, minimal_edit-within}

module _ (Y : YText) where
  open Y use {Carrier, to_string, delete, insert, to_string-delete, to_string-insert}

  -- A deletion and an insertion at one place, each left out where it would do nothing.
  to_string-shorter :
      (y : Carrier) (i n : ℕ) (test : Bool)
      → i + n ≤ length (to_string y)
      → (test ≡ true) ⊎ (n ≡ 0)
      → to_string (if test then delete y i n else y)
        ≡ take i (to_string y) ++ drop (i + n) (to_string y)
  to_string-shorter y i n true h k = to_string-delete y i n h
  to_string-shorter y i n false h (inl k) = cc
  to_string-shorter y i n false h (inr k) =
      let same : i + n ≡ i = omega arith in
      sym (
        ap (λ j. take i (to_string y) ++ drop j (to_string y)) same
        ∙ take-append-drop i (to_string y))

  to_string-longer :
      (y : Carrier) (i : ℕ) (t : Text)
      → i ≤ length (to_string y)
      → to_string (if ltb 0 (length t) then insert y i t else y)
        ≡ take i (to_string y) ++ (t ++ drop i (to_string y))
  to_string-longer y i [] h = sym (take-append-drop i (to_string y))
  to_string-longer y i (c ∷ t) h =
      let nonempty : ltb 0 (length (c ∷ t)) ≡ true = ground arith in
      ap (λ b. to_string (if b then insert y i (c ∷ t) else y)) nonempty
      ∙ to_string-insert y i (c ∷ t) h

  to_string-replace :
      (y : Carrier) (i n : ℕ) (t : Text) (test : Bool)
      → i + n ≤ length (to_string y)
      → (test ≡ true) ⊎ (n ≡ 0)
      → to_string (
          if ltb 0 (length t)
          then insert (if test then delete y i n else y) i t
          else (if test then delete y i n else y))
        ≡ take i (to_string y) ++ (t ++ drop (i + n) (to_string y))
  to_string-replace y i n t test h k =
      let s = to_string y in
      let short : to_string (if test then delete y i n else y) ≡ take i s ++ drop (i + n) s =
        to_string-shorter y i n test h k in
      let at_i : i ≡ length (take i s) + 0 = omega (arith, length-take i s) in
      let room : i ≤ length (to_string (if test then delete y i n else y)) =
        omega
          (arith, ap length short, length-append (take i s) (drop (i + n) s), length-take i s) in
      to_string-longer (if test then delete y i n else y) i t room
      ∙ ap (λ u. take i u ++ (t ++ drop i u)) short
      ∙ ap₂ (λ a b. a ++ (t ++ b)) (take-append i (take i s) _ (omega arith))
          (drop-append i 0 (take i s) _ at_i)

  -- After the write the shared text is the target.
  pub to_string-apply_target_to_ytext :
      (y : Carrier) (target : Text) → to_string (apply_target_to_ytext Y y target) ≡ target
  unfolding apply_target_to_ytext
  to_string-apply_target_to_ytext y target = elim (Bool-cases (text_eq (to_string y) target)) [
    | inl e ↦ rw e (text_eq_sound (to_string y) target e)
    | inr e ↦ rw e (
        to_string-replace y edit.start edit.delete_length edit.insert (ltb 0 edit.delete_length)
          (minimal_edit-within (to_string y) target) (ground arith)
        ∙ apply_edit-minimal_edit (to_string y) target)
  ]
    where
      edit : MinimalEdit
      edit = minimal_edit (to_string y) target

  to_string-write_splice :
      (y : Carrier) (e : Edit ℕ)
      → e.from ≤ e.to
      → e.to ≤ length (to_string y)
      → to_string (write_splice Y y e) ≡ splice_edit e (to_string y)
  unfolding write_splice
  to_string-write_splice y e h k =
      let same : e.from + (e.to - e.from) ≡ e.to = omega arith in
      to_string-replace y e.from (e.to - e.from) e.insert (ltb e.from e.to) (omega arith)
        (ground arith)
      ∙ ap (λ j. take e.from (to_string y) ++ (e.insert ++ drop j (to_string y))) same

  -- The length of a text is not changed in front of the edits that are still to come.
  pub to_string-foldr :
      (es : List (Edit ℕ)) (y : Carrier) (pos : ℕ)
      → AreApart pos (length (to_string y)) es
      → (to_string (foldr (λ e z. write_splice Y z e) y es) ≡ foldr splice_edit (to_string y) es)
        × (pos ≤ length (to_string (foldr (λ e z. write_splice Y z e) y es)))
  to_string-foldr [] y pos h = (refl, h)
  to_string-foldr (e ∷ es) y pos h =
      let (same, room) = to_string-foldr es y e.to h.2 in
      let z = foldr (λ e z. write_splice Y z e) y es in
      let here = to_string-write_splice z e h.1 room in
      (
        here ∙ ap (splice_edit e) same,
        omega (
          arith,
          ap length here,
          length-append (take e.from (to_string z)) (e.insert ++ drop e.to (to_string z)),
          length-take e.from (to_string z),
        ),
      )
