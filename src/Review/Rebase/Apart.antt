-- ===== src/Review/Rebase/Apart.antt =====
-- hunks.ts, `rebaseHunks`: the places of the planned hunks, and the order that they are written in.
use mathlib.Core.List.{reverse, reverse-cons, map-append}
use inkstave.Prelude.{
  ℕ, ◌+◌, ◌≤◌, ◌≡◌, ◌≢◌, sym, ap, subst, ◌∙◌, ◌⊎◌, inl, inr, false, List, [], ◌∷◌, map, String,
  Text, length, arith, sort_by, sort_by-All, sort_by-IsSorted, sort_by-ArePairwise, ArePairwise,
  IsSorted, All, Bool-cases, Option-cases,
}
use inkstave.Edits.{Edit, AreApart, AreApart-snoc}
use inkstave.Review.Hunk.{DiffHunk, old_lines_of}
use inkstave.Review.Locate.{locate}
use inkstave.Review.Locate.Nearest.{locate-within}
use inkstave.Review.Rebase.{Planned, hint_of, has, plan_hunks, is_above}

abbrev pub edit_of : Planned → Edit Text
edit_of p = record { from = p.loc; to = p.loc + p.old_count; insert = p.new_lines }

-- The two hunks start on different lines, and neither replaces a line that the other one does.
abbrev pub AreDisjoint : Planned → Planned → Type 0
AreDisjoint p q = (p.loc ≢ q.loc) × ((p.loc + p.old_count ≤ q.loc) ⊎ (q.loc + q.old_count ≤ p.loc))

AreDisjoint-turn : (p q : Planned) → AreDisjoint p q → AreDisjoint q p
AreDisjoint-turn p q (d, inl h) = (λ e. d (sym e), inr h)
AreDisjoint-turn p q (d, inr h) = (λ e. d (sym e), inl h)

abbrev EndsBy : ℕ → Planned → Type 0
EndsBy size p = p.loc + p.old_count ≤ size

-- Every hunk is planned within the text.
plan_hunks-EndsBy :
    (lines : List Text) (hunks : List DiffHunk) (accepted : List String)
    → All (EndsBy (length lines)) (plan_hunks lines hunks accepted).0
unfolding plan_hunks
plan_hunks-EndsBy lines [] accepted = tt
plan_hunks-EndsBy lines (hunk ∷ hunks) accepted = elim (Bool-cases (has accepted hunk.id)) [
  | inl e ↦ rw e (elim (Option-cases (locate lines (old_lines_of hunk) (hint_of hunk))) [
    | inl missed ↦ rw missed (plan_hunks-EndsBy lines hunks accepted)
    | inr (loc, found) ↦ rw found (
      locate-within lines (old_lines_of hunk) (hint_of hunk) loc found,
      plan_hunks-EndsBy lines hunks accepted,
    )
  ])
  | inr e ↦ rw e (plan_hunks-EndsBy lines hunks accepted)
]

-- Of two hunks apart, the one that is not above the other stands behind it.
EndsBy-is_above : (p q : Planned) → is_above p q ≡ false → AreDisjoint p q → EndsBy p.loc q
EndsBy-is_above p q h (d, inl k) = absurd (d (ground (arith, h)))
EndsBy-is_above p q h (d, inr k) = k

All-EndsBy :
    (p : Planned) (qs : List Planned)
    → All (λ q. is_above p q ≡ false) qs
    → All (AreDisjoint p) qs
    → All (EndsBy p.loc) qs
All-EndsBy p [] h k = tt
All-EndsBy p (q ∷ qs) h k = (EndsBy-is_above p q h.0 k.0, All-EndsBy p qs h.1 k.1)

-- From the last line to the first: the other way round, the hunks stand in the order of the text.
AreApart-reverse :
    (size : ℕ) (down : List Planned)
    → IsSorted is_above down
    → ArePairwise AreDisjoint down
    → All (EndsBy size) down
    → AreApart 0 size (map edit_of (reverse down))
AreApart-reverse size [] s d h = omega arith
AreApart-reverse size (p ∷ down) s d h =
    subst (AreApart 0 size)
      (sym (ap (map edit_of) (reverse-cons p down) ∙ map-append edit_of (reverse down) (p ∷ [])))
      (AreApart-snoc 0 p.loc size (map edit_of (reverse down)) (edit_of p)
        (AreApart-reverse p.loc down s.1 d.1 (All-EndsBy p down s.0 d.0)) (omega arith)
        (omega arith) h.0)

-- The order that the code writes disjoint hunks in is the one from the last line to the first.
pub sort_by-AreApart :
    (lines : List Text) (hunks : List DiffHunk) (accepted : List String)
    → ArePairwise AreDisjoint (plan_hunks lines hunks accepted).0
    → AreApart 0
        (length lines)
        (map edit_of (reverse (sort_by is_above (plan_hunks lines hunks accepted).0)))
sort_by-AreApart lines hunks accepted d =
    let planned = (plan_hunks lines hunks accepted).0 in
    AreApart-reverse (length lines) (sort_by is_above planned)
      (sort_by-IsSorted is_above (λ a b h. ground (arith, h)) (λ a b c h k. ground (arith, h, k))
        planned)
      (sort_by-ArePairwise is_above AreDisjoint AreDisjoint-turn planned d)
      (sort_by-All is_above (EndsBy (length lines)) planned
        (plan_hunks-EndsBy lines hunks accepted))
