-- ===== src/Review/Inline/Actions/Decides.antt =====
-- inline-review-actions.ts: the decisions on all hunks.
use inkstave.Prelude.{
  ◌≡◌, refl, Bool, true, false, List, [], ◌∷◌, String, if◌then◌else◌, str_eq, any, All, arith,
  Bool-cases, inl, inr,
}
use inkstave.Review.Inline.{
  Decision, ReviewHunk, InlineReview, patch_hunk, patch_hunks, patched, is_undecided, all_decided,
}
use inkstave.Review.Inline.Actions.{patch_each, decision_patch, decide}

-- Whether the entries have the hunk's id.
abbrev pub named : List (String × Decision) → ReviewHunk → Bool
named entries h = any (λ (e : String × Decision). str_eq h.hunk.id e.0) entries

-- Every entry decides.
abbrev pub AreDecisions : List (String × Decision) → Type 0
AreDecisions entries = All (λ (e : String × Decision). is_undecided e.1 ≡ false) entries

-- An open hunk is among those that are decided.
abbrev pub IsCovered : List (String × Decision) → ReviewHunk → Type 0
IsCovered entries h = is_undecided h.decision ≡ true → named entries h ≡ true

abbrev pub decide_hunks : List (String × Decision) → List ReviewHunk → List ReviewHunk
decide_hunks [] hunks = hunks
decide_hunks ((id, decision) ∷ entries) hunks =
    decide_hunks entries (patch_hunks id (decision_patch decision) hunks)

pub decide-hunks :
    (entries : List (String × Decision)) (review : InlineReview)
    → (decide entries review).hunks ≡ decide_hunks entries review.hunks
unfolding decide patch_each patch_hunk
decide-hunks [] review = refl
decide-hunks ((id, decision) ∷ entries) review =
    decide-hunks entries (patch_hunk review (id, decision_patch decision))

pub decide-read_only :
    (entries : List (String × Decision)) (review : InlineReview)
    → (decide entries review).read_only ≡ review.read_only
unfolding decide patch_each patch_hunk
decide-read_only [] review = refl
decide-read_only ((id, decision) ∷ entries) review =
    decide-read_only entries (patch_hunk review (id, decision_patch decision))

-- One entry: what it does not name is still named by the others.
IsCovered-patched :
    (id : String) (decision : Decision) (entries : List (String × Decision)) (h : ReviewHunk)
    (b : Bool)
    → str_eq h.hunk.id id ≡ b
    → is_undecided decision ≡ false
    → IsCovered ((id, decision) ∷ entries) h
    → IsCovered entries (if b then patched (decision_patch decision) h else h)
IsCovered-patched id decision entries h true e d k = λ u. ground (arith, u, d)
IsCovered-patched id decision entries h false e d k = λ u. rw e at (k u)

patch_hunks-IsCovered :
    (id : String) (decision : Decision) (entries : List (String × Decision))
    (hunks : List ReviewHunk)
    → is_undecided decision ≡ false
    → All (IsCovered ((id, decision) ∷ entries)) hunks
    → All (IsCovered entries) (patch_hunks id (decision_patch decision) hunks)
patch_hunks-IsCovered id decision entries [] d k = k
patch_hunks-IsCovered id decision entries (h ∷ hunks) d (k, rest) = (
  IsCovered-patched id decision entries h (str_eq h.hunk.id id) refl d k,
  patch_hunks-IsCovered id decision entries hunks d rest,
)

none_open : (hunks : List ReviewHunk) → All (IsCovered []) hunks → all_decided hunks ≡ true
unfolding all_decided
none_open [] k = refl
none_open (h ∷ hunks) (k, rest) = elim (Bool-cases (is_undecided h.decision)) [
  | inl e ↦ ground (arith, k e)
  | inr e ↦ rw e (none_open hunks rest)
]

-- Where every open hunk is named, all are decided afterwards.
pub decide_hunks-all_decided :
    (entries : List (String × Decision)) (hunks : List ReviewHunk)
    → AreDecisions entries
    → All (IsCovered entries) hunks
    → all_decided (decide_hunks entries hunks) ≡ true
decide_hunks-all_decided [] hunks d k = none_open hunks k
decide_hunks-all_decided ((id, decision) ∷ entries) hunks (d, ds) k =
    decide_hunks-all_decided entries (patch_hunks id (decision_patch decision) hunks) ds
      (patch_hunks-IsCovered id decision entries hunks d k)
