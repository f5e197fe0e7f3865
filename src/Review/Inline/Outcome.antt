-- ===== src/Review/Inline/Outcome.antt =====
-- inline-review-model.ts, `outcomeLists`.
use inkstave.Prelude.{
  ◌≡◌, refl, ap, Bool, true, false, not, List, [], ◌∷◌, ◌++◌, map, String, filter_by, Bool-cases,
  inl, inr, arith, append_assoc, subst,
}
use mathlib.Core.List.{Perm}
use mathlib.Core.List.Perm
use inkstave.Review.Inline.{
  Decision, undecided, accepted, rejected, stale, ReviewHunk, DecisionLists, is_undecided,
  put_first, outcome_lists, all_decided,
}

-- The three lists as one.
abbrev pub all_lists : DecisionLists → List String
all_lists lists = lists.accepted_ids ++ (lists.rejected_ids ++ lists.stale_ids)

-- The ids of the hunks with a decision that is not "open".
abbrev pub decided_ids : List ReviewHunk → List String
decided_ids hunks = map (λ h. h.hunk.id) (filter_by (λ h. not (is_undecided h.decision)) hunks)

middle : (xs ys : List String) (id : String) → Perm (xs ++ id ∷ ys) (id ∷ (xs ++ ys))
middle [] ys id = Perm.refl _
middle (x ∷ xs) ys id = Perm.trans (Perm.cons x (middle xs ys id)) (Perm.swap id x (xs ++ ys))

put_first-perm :
    (decision : Decision) (id : String) (lists : DecisionLists)
    → is_undecided decision ≡ false
    → Perm (all_lists (put_first decision id lists)) (id ∷ all_lists lists)
put_first-perm undecided id lists e = ground (arith, e)
put_first-perm accepted id lists e = Perm.refl _
put_first-perm rejected id lists e =
    middle lists.accepted_ids (lists.rejected_ids ++ lists.stale_ids) id
put_first-perm stale id lists e =
    let acc = lists.accepted_ids in
    let rej = lists.rejected_ids in
    subst (λ l. Perm l (id ∷ all_lists lists)) (append_assoc acc rej (id ∷ lists.stale_ids))
      (subst (λ l. Perm ((acc ++ rej) ++ id ∷ lists.stale_ids) (id ∷ l))
        (append_assoc acc rej lists.stale_ids) (middle (acc ++ rej) lists.stale_ids id))

put_first-undecided :
    (decision : Decision) (id : String) (lists : DecisionLists)
    → is_undecided decision ≡ true
    → put_first decision id lists ≡ lists
put_first-undecided undecided id lists e = refl
put_first-undecided accepted id lists e = ground (arith, e)
put_first-undecided rejected id lists e = ground (arith, e)
put_first-undecided stale id lists e = ground (arith, e)

-- Whether a hunk was decided in a given way.
abbrev pub same_decision : Decision → Decision → Bool
same_decision undecided undecided = true
same_decision accepted accepted = true
same_decision rejected rejected = true
same_decision stale stale = true
same_decision _ _ = false

abbrev pub ids_with : Decision → List ReviewHunk → List String
ids_with decision hunks =
    map (λ h. h.hunk.id) (filter_by (λ h. same_decision h.decision decision) hunks)

-- Each list has the ids of its decision, in order.
abbrev pub AreLists : List ReviewHunk → DecisionLists → Type 0
AreLists hunks lists =
    (lists.accepted_ids ≡ ids_with accepted hunks)
    × (lists.rejected_ids ≡ ids_with rejected hunks)
    × (lists.stale_ids ≡ ids_with stale hunks)

outcome_lists-perm :
    (hunks : List ReviewHunk) → Perm (all_lists (outcome_lists hunks)) (decided_ids hunks)
unfolding outcome_lists
outcome_lists-perm [] = Perm.refl _
outcome_lists-perm (h ∷ hunks) =
    let lists = outcome_lists hunks in
    let rest = outcome_lists-perm hunks in
    elim (Bool-cases (is_undecided h.decision)) [
      | inl e ↦ rw (put_first-undecided h.decision h.hunk.id lists e, e) rest
      | inr e ↦
          rw e (Perm.trans (put_first-perm h.decision h.hunk.id lists e) (Perm.cons h.hunk.id rest))
    ]

put_first-lists :
    (d : Decision) (h : ReviewHunk) (hunks : List ReviewHunk) (lists : DecisionLists)
    → h.decision ≡ d
    → AreLists hunks lists
    → AreLists (h ∷ hunks) (put_first d h.hunk.id lists)
put_first-lists undecided h hunks lists e (a, r, s) = rw e (a, r, s)
put_first-lists accepted h hunks lists e (a, r, s) = rw e (ap (λ l. h.hunk.id ∷ l) a, r, s)
put_first-lists rejected h hunks lists e (a, r, s) = rw e (a, ap (λ l. h.hunk.id ∷ l) r, s)
put_first-lists stale h hunks lists e (a, r, s) = rw e (a, r, ap (λ l. h.hunk.id ∷ l) s)

outcome_lists-AreLists : (hunks : List ReviewHunk) → AreLists hunks (outcome_lists hunks)
unfolding outcome_lists
outcome_lists-AreLists [] = (refl, refl, refl)
outcome_lists-AreLists (h ∷ hunks) =
    put_first-lists h.decision h hunks (outcome_lists hunks) refl (outcome_lists-AreLists hunks)

decided_ids-all :
    (hunks : List ReviewHunk)
    → all_decided hunks ≡ true
    → decided_ids hunks ≡ map (λ h. h.hunk.id) hunks
unfolding all_decided
decided_ids-all [] e = refl
decided_ids-all (h ∷ hunks) e = elim (Bool-cases (is_undecided h.decision)) [
  | inl k ↦ ground (arith, rw k at e)
  | inr k ↦ rw k (ap (λ l. h.hunk.id ∷ l) (decided_ids-all hunks (rw k at e)))
]

-- Once every hunk is decided, the three lists of the outcome together have the id of every hunk as often
-- as it stands among the hunks, and each list has, in order, those of its decision.
pub outcome_lists_complete :
    (hunks : List ReviewHunk)
    → all_decided hunks ≡ true
    → Perm (all_lists (outcome_lists hunks)) (map (λ h. h.hunk.id) hunks)
      × AreLists hunks (outcome_lists hunks)
outcome_lists_complete hunks e = (
  subst (λ ids. Perm (all_lists (outcome_lists hunks)) ids) (decided_ids-all hunks e)
      (outcome_lists-perm hunks),
  outcome_lists-AreLists hunks,
)
