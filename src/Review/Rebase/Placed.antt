-- ===== src/Review/Rebase/Placed.antt =====
-- hunks.ts, `rebaseHunks`: the text that it writes, and the hunks that it leaves out.
use mathlib.Core.List.{foldl, Perm, perm_middle}
use mathlib.Core.List.Perm
use inkstave.Prelude.{
  ◌≡◌, refl, ap, ◌∙◌, List, [], ◌∷◌, ◌++◌, map, String, Text, sort_by, sort_by-perm, Bool-cases,
  Option-cases, inl, inr, filter_by,
}
use inkstave.Review.Hunk.{DiffHunk, old_lines_of}
use inkstave.Review.Lines.{to_lines, join, join-to_lines}
use inkstave.Review.Locate.{locate}
use inkstave.Review.Rebase.{Planned, hint_of, has, plan_hunks, is_above, splice, rebase_hunks}

-- The planned hunks in the order that they are written in, from the last line to the first.
abbrev pub ordered : Text → List DiffHunk → List String → List Planned
ordered content hunks accepted =
    sort_by is_above (plan_hunks (to_lines content).lines hunks accepted).0

map-eq-nil : (ps : List Planned) → map (λ (p : Planned). p.id) ps ≡ [] → ps ≡ []
map-eq-nil [] h = refl
map-eq-nil (p ∷ ps) h = cc

-- Where no accepted hunk has a place, the text stays as it is.
pub target-rebase_hunks_none :
    (content : Text) (hunks : List DiffHunk) (accepted : List String)
    → (rebase_hunks content hunks accepted).applied_hunk_ids ≡ []
    → (rebase_hunks content hunks accepted).target ≡ content
unfolding rebase_hunks
target-rebase_hunks_none content hunks accepted h =
    ap (λ ps. join (foldl splice (to_lines content).lines ps) (to_lines content).trailing_newline)
      (map-eq-nil (ordered content hunks accepted) h)
    ∙ join-to_lines content

abbrev ids : List Planned → List String
ids = map (λ p. p.id)

-- The hunks that the user accepted.
abbrev pub accepted_ids : List DiffHunk → List String → List String
accepted_ids hunks accepted = filter_by (has accepted) (map (λ h. h.id) hunks)

plan_hunks-perm :
    (lines : List Text) (hunks : List DiffHunk) (accepted : List String)
    → Perm
        (ids (plan_hunks lines hunks accepted).0 ++ (plan_hunks lines hunks accepted).1)
        (accepted_ids hunks accepted)
unfolding plan_hunks
plan_hunks-perm lines [] accepted = Perm.refl _
plan_hunks-perm lines (hunk ∷ hunks) accepted = elim (Bool-cases (has accepted hunk.id)) [
  | inl e ↦ rw e (elim (Option-cases (locate lines (old_lines_of hunk) (hint_of hunk))) [
    | inl missed ↦ rw missed (
        Perm.trans (perm_middle (ids (plan_hunks lines hunks accepted).0) _)
          (Perm.cons hunk.id (plan_hunks-perm lines hunks accepted)))
    | inr (loc, found) ↦ rw found (Perm.cons hunk.id (plan_hunks-perm lines hunks accepted))
  ])
  | inr e ↦ rw e (plan_hunks-perm lines hunks accepted)
]

-- Every accepted hunk is applied or blocked, as often as it stands among the hunks, and no other is.
pub rebase_hunks-perm :
    (content : Text) (hunks : List DiffHunk) (accepted : List String)
    → Perm
        ((rebase_hunks content hunks accepted).applied_hunk_ids
          ++ (rebase_hunks content hunks accepted).blocked_hunk_ids)
        (accepted_ids hunks accepted)
unfolding rebase_hunks
rebase_hunks-perm content hunks accepted =
    Perm.trans
      (Perm.append
        (Perm.map (λ (p : Planned). p.id)
          (sort_by-perm is_above (plan_hunks (to_lines content).lines hunks accepted).0))
        (Perm.refl _))
      (plan_hunks-perm (to_lines content).lines hunks accepted)
