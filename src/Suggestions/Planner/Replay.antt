-- ===== src/Suggestions/Planner/Replay.antt =====
-- record.ts, `planEdit`: a plan's operations run on the text.
use inkstave.Suggestions.Planner.Runs.{Runs, Runs-append, grow-Runs, record_deletion-Runs}
use mathlib.Core.List.{foldl}
use inkstave.Prelude.{
  ℕ, ◌+◌, ◌-◌, ◌≤◌, ◌≡◌, refl, sym, ap, subst, ap₂, eq-nil_of_length, ◌∙◌, false, List, [], ◌∷◌,
  ◌++◌, append_assoc, arith, ltb, inl, inr, length, take, drop, take-append, drop-append,
  length-append, split_three, length-take, length-drop, Text,
}
use inkstave.Suggestions.Planner.Within.{AreWithin, grow-AreWithin}
use inkstave.Prelude.{◌<◌, Option-cases, if-split, some}
use mathlib.Core.Option.{none-ne-some}
use inkstave.Suggestions.Planner.{
  SuggestionAuthor, TextChange, PlanOp, text_delete, text_insert, PlanInput, PlanState, grow,
  plan_removal, plan_insertion, plan_change, plan_start, plan_edit,
}

-- The operations run so far, and an author's insertions within the text that they lead to. A plain edit
-- does not look at the insertions.
abbrev Follows : PlanInput → Text → Text → PlanState → Type 0
Follows input t u s =
    Runs s.ops t u
    × ((author : SuggestionAuthor) → input.author ≡ some author → AreWithin (length u) s.own)

-- One deletion and one insertion, on a text that is cut where they work.
delete-Runs :
    (pre cut post : Text) (start end : ℕ) (ops : List PlanOp) (t : Text)
    → Runs ops t (pre ++ (cut ++ post))
    → start ≡ length pre
    → end ≡ start + length cut
    → Runs (ops ++ text_delete start end ∷ []) t (pre ++ post)
delete-Runs pre cut post start end ops t h e f =
    Runs-append ops (text_delete start end ∷ []) t (pre ++ (cut ++ post)) (pre ++ post) h (
      (omega arith, omega (arith, length-append pre (cut ++ post), length-append cut post)),
      ap₂ (λ x y. x ++ y) (take-append start pre (cut ++ post) e)
          (drop-append end (length cut) pre (cut ++ post) (omega arith)
            ∙ drop-append (length cut) 0 cut post (omega arith)),
    )

insert-Runs :
    (pre post text : Text) (start : ℕ) (ops : List PlanOp) (t : Text)
    → Runs ops t (pre ++ post)
    → start ≡ length pre
    → Runs (ops ++ text_insert start text ∷ []) t (pre ++ (text ++ post))
insert-Runs pre post text start ops t h e =
    Runs-append ops (text_insert start text ∷ []) t (pre ++ post) (pre ++ (text ++ post)) h (
      omega (arith, length-append pre post),
      ap₂ (λ x y. x ++ (text ++ y)) (take-append start pre post e)
          (drop-append start 0 pre post (omega arith)),
    )

module _ (input : PlanInput) (t pre : Text) (start : ℕ) (c : TextChange)
    (at_start : start ≡ length pre) where
  plan_removal-Follows :
      (cut post : Text) (s : PlanState)
      → Follows input t (pre ++ (cut ++ post)) s
      → c.to - c.from ≡ length cut
      → Follows input t (pre ++ post) (plan_removal input start c s)
  unfolding plan_removal
  plan_removal-Follows [] post s h e = rw e h
  plan_removal-Follows (x ∷ cut) post s (runs, own) e =
      let end = start + (c.to - c.from) in
      let cut_runs = delete-Runs pre (x ∷ cut) post start end s.ops t runs at_start (omega arith) in
      let size = length-append pre post in
      let old_size = length-append pre ((x ∷ cut) ++ post) in
      let cut_size = length-append (x ∷ cut) post in
      if-split (Follows input t (pre ++ post)) (ltb 0 (c.to - c.from))
        (λ _. elim (Option-cases input.author) [
          | inl f ↦ rw f (cut_runs, λ author g. absurd (none-ne-some author g))
          | inr (author, f) ↦
              let within : AreWithin (length (pre ++ post) + (end - start)) s.own =
                subst (λ n. AreWithin n s.own) (omega (arith, size, old_size, cut_size))
                  (own author f) in
              let cut_s = record s { ops = s.ops ++ text_delete start end ∷ [] } in
              let noted =
                record_deletion-Runs input t (pre ++ post) start end c cut_s (omega arith)
                  (omega (arith, size)) within cut_runs in
              rw f (noted.0, λ a g. noted.1)
        ])
        (λ k. absurd (ground (arith, k)))

  plan_insertion-Follows :
      (post : Text) (s : PlanState)
      → Follows input t (pre ++ post) s
      → Follows input t (pre ++ (c.insert ++ post)) (plan_insertion input start c s)
  unfolding plan_insertion
  plan_insertion-Follows post s (runs, own) =
      let put = record s { ops = s.ops ++ text_insert start c.insert ∷ [] } in
      let put_runs = insert-Runs pre post c.insert start s.ops t runs at_start in
      let total = length (pre ++ post) in
      let size = length-append pre post in
      let new_size = length-append pre (c.insert ++ post) in
      let put_size = length-append c.insert post in
      let grown : total + length c.insert ≡ length (pre ++ (c.insert ++ post)) =
        omega (arith, size, new_size, put_size) in
      if-split (Follows input t (pre ++ (c.insert ++ post))) (ltb 0 (length c.insert))
        (λ k. elim (Option-cases input.author) [
          | inl f ↦ rw f (put_runs, λ author g. absurd (none-ne-some author g))
          | inr (author, f) ↦
              let some_text : 0 < length c.insert = ground (arith, k) in
              rw f (
                grow-Runs t (pre ++ (c.insert ++ post)) input total start (length c.insert) put
                    some_text (omega (arith, size)) (omega (arith, grown)) (own author f) put_runs,
                λ a g.
                    subst (λ n. AreWithin n (grow input start (length c.insert) put).own) grown
                      (grow-AreWithin total start (length c.insert) input put (omega (arith, size))
                        some_text (own author f)),
              )
        ])
        (λ k.
          subst (λ i. Follows input t (pre ++ (i ++ post)) s) (sym (eq-nil_of_length c.insert k))
            (runs, own))

plan_change-Follows :
    (input : PlanInput) (t pre cut post : Text) (c : TextChange) (s : PlanState)
    → Follows input t (pre ++ (cut ++ post)) s
    → length pre + s.removed ≡ c.from + s.inserted
    → c.to - c.from ≡ length cut
    → Follows input t (pre ++ (c.insert ++ post)) (plan_change input s c)
unfolding plan_change
plan_change-Follows input t pre cut post c s h e size =
    let start = c.from + s.inserted - s.removed in
    let here : start ≡ length pre = omega arith in
    plan_insertion-Follows input t pre start c here post (plan_removal input start c s)
      (plan_removal-Follows input t pre start c here cut post s h size)

-- The changes are in the order of the text, do not overlap, and lie between `at` and `size`.
abbrev pub AreAscending : ℕ → ℕ → List TextChange → Type 0
AreAscending pos size [] = pos ≤ size
AreAscending pos size (c ∷ cs) = (pos ≤ c.from) × (c.from ≤ c.to) × AreAscending c.to size cs

-- The text after the edit: `rest` is the old text from `pos` on.
pub changed : ℕ → List TextChange → Text → Text
changed pos [] rest = rest
changed pos (c ∷ cs) rest =
    take (c.from - pos) rest ++ (c.insert ++ changed c.to cs (drop (c.to - pos) rest))

AreAscending-le : (pos size : ℕ) (cs : List TextChange) → AreAscending pos size cs → pos ≤ size
AreAscending-le pos size [] h = h
AreAscending-le pos size (c ∷ cs) h = omega (arith, AreAscending-le c.to size cs h.2)

plan_changes-Follows :
    (input : PlanInput) (t pre rest : Text) (pos size : ℕ) (cs : List TextChange) (s : PlanState)
    → Follows input t (pre ++ rest) s
    → length pre + s.removed ≡ pos + s.inserted
    → pos + length rest ≡ size
    → AreAscending pos size cs
    → Follows input t (pre ++ changed pos cs rest) (foldl (plan_change input) s cs)
unfolding changed
plan_changes-Follows input t pre rest pos size [] s h e f asc = h
plan_changes-Follows input t pre rest pos size (c ∷ cs) s h e f asc =
    let more =
      plan_changes-Follows input t (pre' ++ c.insert) post c.to size cs (plan_change input s c) step
        (unfold plan_change in omega (arith, length_pre', length-append pre' c.insert))
        (omega (arith, bound, length-drop (c.to - pos) rest)) asc.2 in
    simp append_assoc at more
  where
    kept : Text
    kept = take (c.from - pos) rest

    cut : Text
    cut = take (c.to - c.from) (drop (c.from - pos) rest)

    post : Text
    post = drop (c.to - pos) rest

    pre' : Text
    pre' = pre ++ kept

    bound : c.to ≤ size
    bound = AreAscending-le c.to size cs asc.2

    split : rest ≡ kept ++ (cut ++ post)
    split = sym (split_three (c.from - pos) (c.to - c.from) (c.to - pos) rest (omega arith))

    before : Follows input t (pre' ++ (cut ++ post)) s
    before =
        subst (λ u. Follows input t u s)
          (ap (λ r. pre ++ r) split ∙ sym (append_assoc pre kept (cut ++ post))) h

    length_pre' : length pre' ≡ length pre + (c.from - pos)
    length_pre' = omega (arith, bound, length-append pre kept, length-take (c.from - pos) rest)

    step : Follows input t ((pre' ++ c.insert) ++ post) (plan_change input s c)
    step =
        subst (λ u. Follows input t u (plan_change input s c))
          (sym (append_assoc pre' c.insert post))
          (plan_change-Follows input t pre' cut post c s before (omega (arith, length_pre')) (
            omega (
              arith,
              bound,
              length-take (c.to - c.from) (drop (c.from - pos) rest),
              length-drop (c.from - pos) rest,
            )))

-- An edit that is not blocked, with changes in order and apart within the old text, and the caller's
-- insertions not empty and within it too: its operations, run in their order, each name only places
-- within the text as it stands at that step, those of the records included, and take the old text to
-- the text with the changes applied.
pub plan_edit-Runs :
    (input : PlanInput) (old : Text)
    → AreAscending 0 (length old) input.changes
    → AreWithin (length old) input.own
    → (plan_edit input).blocked ≡ false
    → Runs (plan_edit input).ops old (changed 0 input.changes old)
unfolding plan_edit
plan_edit-Runs input old asc within h =
    let walked =
      plan_changes-Follows input old [] old 0 (length old) input.changes (plan_start input)
        (refl, λ author e. within) refl (omega arith) asc in
    ground (arith, walked.0)
