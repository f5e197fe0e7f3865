-- ===== src/Crdt/Apply.antt =====
-- diff-review/crdt-apply.ts: small edits of a shared text. A transaction is the run of its edits; the
-- origin that it carries is left out.
pub mod Laws
use mathlib.Core.List.{foldl}
use inkstave.Prelude.{
  ℕ, zero, ◌-◌, Bool, true, false, List, [], ◌∷◌, if◌then◌else◌, ltb, ◌==◌, length, Text, text_eq,
  sort_by,
}
use inkstave.Edits.{Edit}
use inkstave.Crdt.{YText}
use inkstave.Review.MinimalEdit.{MinimalEdit, minimal_edit}

-- `splices.sort((a, b) => b.from - a.from)`
abbrev pub starts_before : Edit ℕ → Edit ℕ → Bool
starts_before a b = ltb a.from b.from

module _ (Y : YText) where
  open Y use {Carrier, to_string, delete, insert}

  pub apply_target_to_ytext : Carrier → Text → Carrier
  apply_target_to_ytext ytext target =
      let edit = minimal_edit (to_string ytext) target in
      let shorter =
        if ltb 0 edit.delete_length then delete ytext edit.start edit.delete_length else ytext in
      if text_eq (to_string ytext) target
      then ytext
      else if ltb 0 (length edit.insert)
      then insert shorter edit.start edit.insert
      else shorter

  -- One round of the loop of `applySplicesToYText`.
  pub write_splice : Carrier → Edit ℕ → Carrier
  write_splice ytext splice =
      let shorter =
        if ltb splice.from splice.to
        then delete ytext splice.from (splice.to - splice.from)
        else ytext in
      if ltb 0 (length splice.insert) then insert shorter splice.from splice.insert else shorter

  unfoldable pub apply_splices_to_ytext : Carrier → List (Edit ℕ) → Carrier
  unfolding write_splice
  apply_splices_to_ytext ytext splices =
      if length splices == 0
      then ytext
      else foldl write_splice ytext (sort_by starts_before splices)
