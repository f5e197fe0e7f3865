-- ===== src/Review/Inline/Actions/Settles.antt =====
-- inline-review-actions.ts: after a decision on all hunks the outcome can be recorded.
use inkstave.Prelude.{
  suc, ◌≡◌, refl, sym, ap, ◌∙◌, Bool, true, false, not, List, [], ◌∷◌, ◌++◌, map, String, if-split,
  if-elim, str_eq, eq_refl, ltb, length, all, filter_by, All, arith, subst, Bool-cases, inl, inr,
  append_assoc,
}
use inkstave.Review.Inline.{
  Decision, ReviewHunk, InlineReview, patch_hunks, is_undecided, pending_hunks,
}
use inkstave.Review.Inline.Actions.{
  open_of, decision_patch, decide, may_settle, refusal, reject_all,
}
use inkstave.Review.Inline.Actions.Decides.{
  named, AreDecisions, IsCovered, decide_hunks, decide-hunks, decide-read_only,
  decide_hunks-all_decided,
}

-- No write is in flight.
abbrev pub none_busy : List ReviewHunk → Bool
none_busy hunks = all (λ h. not h.busy) hunks

length-patch_hunks :
    (id : String) (decision : Decision) (hunks : List ReviewHunk)
    → length (patch_hunks id (decision_patch decision) hunks) ≡ length hunks
length-patch_hunks id decision [] = refl
length-patch_hunks id decision (h ∷ hunks) = ap suc (length-patch_hunks id decision hunks)

length-decide_hunks :
    (entries : List (String × Decision)) (hunks : List ReviewHunk)
    → length (decide_hunks entries hunks) ≡ length hunks
length-decide_hunks [] hunks = refl
length-decide_hunks ((id, decision) ∷ entries) hunks =
    length-decide_hunks entries (patch_hunks id (decision_patch decision) hunks)
    ∙ length-patch_hunks id decision hunks

-- The review can be settled once decisions have been made for all its open hunks.
pub decide-settles :
    (entries : List (String × Decision)) (review : InlineReview)
    → review.read_only ≡ false
    → ltb 0 (length review.hunks) ≡ true
    → AreDecisions entries
    → All (IsCovered entries) review.hunks
    → may_settle (decide entries review) ≡ true
unfolding may_settle
decide-settles entries review r n d k =
    rw
      (
        decide-read_only entries review,
        decide-hunks entries review,
        length-decide_hunks entries review.hunks,
        r,
        n,
      )
      (decide_hunks-all_decided entries review.hunks d k)

-- The hunks that are open and not busy.
abbrev pub free : List ReviewHunk → List ReviewHunk
free hunks = filter_by (λ h. not h.busy) (filter_by (λ h. is_undecided h.decision) hunks)

free-decided :
    (h : ReviewHunk) (hunks : List ReviewHunk)
    → is_undecided h.decision ≡ false
    → free (h ∷ hunks) ≡ free hunks
free-decided h hunks e =
    if-split (λ hs. filter_by (λ h. not h.busy) hs ≡ free hunks) (is_undecided h.decision)
      (λ k. ground (arith, e, k)) (λ _. refl)

free-open :
    (h : ReviewHunk) (hunks : List ReviewHunk)
    → is_undecided h.decision ≡ true
    → h.busy ≡ false
    → free (h ∷ hunks) ≡ h ∷ free hunks
free-open h hunks e b =
    if-split (λ hs. filter_by (λ h. not h.busy) hs ≡ h ∷ free hunks) (is_undecided h.decision)
      (λ _.
        if-split (λ hs. hs ≡ h ∷ free hunks) (not h.busy) (λ _. refl) (λ k. ground (arith, b, k)))
      (λ k. ground (arith, e, k))

any-here :
    (h : ReviewHunk) (decision : Decision) (before after : List (String × Decision))
    → named (before ++ (h.hunk.id, decision) ∷ after) h ≡ true
any-here h decision [] after = rw (eq_refl h.hunk.id) refl
any-here h decision (e ∷ before) after = elim (Bool-cases (str_eq h.hunk.id e.0)) [
  | inl k ↦ rw k refl
  | inr k ↦ rw k (any-here h decision before after)
]

not_busy :
    (h : ReviewHunk) (hunks : List ReviewHunk) → none_busy (h ∷ hunks) ≡ true → h.busy ≡ false
not_busy h hunks b = elim (Bool-cases h.busy) [ inl e ↦ ground (arith, rw e at b) | inr e ↦ e ]

rest_busy :
    (h : ReviewHunk) (hunks : List ReviewHunk)
    → none_busy (h ∷ hunks) ≡ true
    → none_busy hunks ≡ true
rest_busy h hunks b = rw (not_busy h hunks b) at b

module _ (choice : ReviewHunk → Decision) where
  abbrev pub choices : List ReviewHunk → List (String × Decision)
  choices hunks = map (λ h. (h.hunk.id, choice h)) hunks

  pub choices-AreDecisions :
      ((h : ReviewHunk) → is_undecided (choice h) ≡ false)
      → (hunks : List ReviewHunk) → AreDecisions (choices hunks)
  choices-AreDecisions d [] = tt
  choices-AreDecisions d (h ∷ hunks) = (d h, choices-AreDecisions d hunks)

  with_one_more :
      (before : List (String × Decision)) (h : ReviewHunk) (hunks : List ReviewHunk)
      → h.busy ≡ false
      → ((later : List (String × Decision)) → All (IsCovered (later ++ choices (free hunks))) hunks)
      → All (IsCovered (before ++ choices (free (h ∷ hunks)))) (h ∷ hunks)
  with_one_more before h hunks b rest = elim (Bool-cases (is_undecided h.decision)) [
    | inr e ↦
        subst (λ f. All (IsCovered (before ++ choices f)) (h ∷ hunks))
          (sym (free-decided h hunks e)) (λ u. ground (arith, u, e), rest before)
    | inl e ↦
        subst (λ f. All (IsCovered (before ++ choices f)) (h ∷ hunks)) (sym (free-open h hunks e b))
          (
            (λ _. any-here h (choice h) before (choices (free hunks))),
            subst (λ entries. All (IsCovered entries) hunks)
                (append_assoc before ((h.hunk.id, choice h) ∷ []) (choices (free hunks)))
                (rest (before ++ (h.hunk.id, choice h) ∷ [])),
          )
  ]

  pub free-IsCovered :
      (before : List (String × Decision)) (hunks : List ReviewHunk)
      → none_busy hunks ≡ true
      → All (IsCovered (before ++ choices (free hunks))) hunks
  free-IsCovered before [] b = tt
  free-IsCovered before (h ∷ hunks) b =
      with_one_more before h hunks (not_busy h hunks b)
        (λ later. free-IsCovered later hunks (rest_busy h hunks b))

refusal-decided : (h : ReviewHunk) → is_undecided (refusal h) ≡ false
refusal-decided h = if-elim (λ d. is_undecided d ≡ false) h.blocked refl refl

-- While no write is in flight, rejecting all the hunks of a review that is not read-only and has a hunk
-- decides every hunk, so that the outcome is recorded.
pub reject_all-settles :
    (review : InlineReview)
    → review.read_only ≡ false
    → ltb 0 (length review.hunks) ≡ true
    → none_busy review.hunks ≡ true
    → may_settle (reject_all review) ≡ true
unfolding reject_all open_of pending_hunks
reject_all-settles review r n b =
    if-split (λ (v : InlineReview). may_settle v ≡ true) review.read_only
      (λ e. ground (arith, r, e))
      (λ _.
        decide-settles (choices refusal (free review.hunks)) review r n
          (choices-AreDecisions refusal refusal-decided (free review.hunks))
          (free-IsCovered refusal [] review.hunks b))
