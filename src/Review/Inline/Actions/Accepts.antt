-- ===== src/Review/Inline/Actions/Accepts.antt =====
-- inline-review-actions.ts, `acceptAll`: its write and what follows it.
use inkstave.Prelude.{
  suc, ◌≡◌, refl, sym, ap, Bool, true, false, not, ◌||◌, Option, some, List, [], ◌∷◌, map, String,
  if◌then◌else◌, if-split, if-elim, str_eq, ltb, length, All, arith, subst,
}
use inkstave.Review.Rebase.{has}
use inkstave.Review.Inline.{
  Decision, accepted, stale, ReviewHunk, InlineReview, patch_hunk, patch_hunks, patched,
  is_undecided, pending_hunks,
}
use inkstave.Review.Inline.Actions.{
  open_of, patch_each, busy_patch, set_busy, decide, may_settle, begin_accept_all, end_accept_all,
}
use inkstave.Review.Inline.Actions.Decides.{IsCovered}
use inkstave.Review.Inline.Actions.Settles.{
  none_busy, decide-settles, free, choices, choices-AreDecisions, free-IsCovered,
}

busy-IsCovered :
    (entries : List (String × Decision)) (h : ReviewHunk) (b busy : Bool)
    → IsCovered entries h
    → IsCovered entries (if b then patched (busy_patch busy) h else h)
busy-IsCovered entries h true busy k = k
busy-IsCovered entries h false busy k = k

patch_hunks-busy :
    (entries : List (String × Decision)) (id : String) (busy : Bool) (hunks : List ReviewHunk)
    → All (IsCovered entries) hunks
    → All (IsCovered entries) (patch_hunks id (busy_patch busy) hunks)
patch_hunks-busy entries id busy [] k = k
patch_hunks-busy entries id busy (h ∷ hunks) (k, rest) = (
  busy-IsCovered entries h (str_eq h.hunk.id id) busy k,
  patch_hunks-busy entries id busy hunks rest,
)

length-busy :
    (id : String) (busy : Bool) (hunks : List ReviewHunk)
    → length (patch_hunks id (busy_patch busy) hunks) ≡ length hunks
length-busy id busy [] = refl
length-busy id busy (h ∷ hunks) = ap suc (length-busy id busy hunks)

-- What a review needs so that the given decisions settle it.
abbrev Ready : List (String × Decision) → InlineReview → Type 0
Ready entries review =
    (review.read_only ≡ false)
    × (ltb 0 (length review.hunks) ≡ true)
    × All (IsCovered entries) review.hunks

-- Busy hunks are as open as before.
set_busy-Ready :
    (entries : List (String × Decision)) (ids : List String) (busy : Bool) (review : InlineReview)
    → Ready entries review
    → Ready entries (set_busy ids busy review)
unfolding set_busy patch_each patch_hunk
set_busy-Ready entries [] busy review k = k
set_busy-Ready entries (id ∷ ids) busy review (r, n, k) =
    set_busy-Ready entries ids busy (patch_hunk review (id, busy_patch busy))
      (r, rw (length-busy id busy review.hunks) n, patch_hunks-busy entries id busy review.hunks k)

-- How the hunks are decided that the write was for.
abbrev written : List String → ReviewHunk → Decision
written applied h = if has applied h.hunk.id then accepted else stale

written-decided :
    (applied : List String) (h : ReviewHunk) → is_undecided (written applied h) ≡ false
written-decided applied h = if-elim (λ d. is_undecided d ≡ false) (has applied h.hunk.id) refl refl

entries_of :
    (applied : List String) (hunks : List ReviewHunk)
    → map (λ id. (id, if has applied id then accepted else stale)) (map (λ h. h.hunk.id) hunks)
      ≡ choices (written applied) hunks
entries_of applied [] = refl
entries_of applied (h ∷ hunks) =
    ap (λ es. (h.hunk.id, written applied h) ∷ es) (entries_of applied hunks)

some-inj : {p q : List String × InlineReview} → some p ≡ some q → p ≡ q
some-inj h = cc

not_read_only : (r n : Bool) → (r || not n) ≡ false → (r ≡ false) × (n ≡ true)
not_read_only true n e = ground (arith, e)
not_read_only false true e = (refl, refl)
not_read_only false false e = ground (arith, e)

has_hunk :
    (hunks : List ReviewHunk)
    → ltb 0 (length (map (λ h. h.hunk.id) (free hunks))) ≡ true
    → ltb 0 (length hunks) ≡ true
has_hunk [] e = e
has_hunk (h ∷ hunks) e = ground arith

begun-settles :
    (review : InlineReview) (applied : List String)
    → none_busy review.hunks ≡ true
    → review.read_only ≡ false
    → ltb 0 (length review.hunks) ≡ true
    → let ids = map (λ h. h.hunk.id) (free review.hunks) in
      may_settle (end_accept_all ids (some applied) (set_busy ids true review)) ≡ true
unfolding end_accept_all
begun-settles review applied b r n =
    let hunks = free review.hunks in
    let ids = map (λ h. h.hunk.id) hunks in
    let entries = choices (written applied) hunks in
    let (r', n', k) =
      set_busy-Ready entries ids true review
        (r, n, free-IsCovered (written applied) [] review.hunks b) in
    subst (λ es. may_settle (decide es (set_busy ids true review)) ≡ true)
      (sym (entries_of applied hunks))
      (decide-settles entries (set_busy ids true review) r' n'
        (choices-AreDecisions (written applied) (written-decided applied) hunks) k)

-- While no write is in flight, accepting all the hunks of a review that has an open one: once the write is
-- answered with the ids that it applied, every hunk is decided, so that the outcome is recorded.
pub end_accept_all-settles :
    (review busy : InlineReview) (ids applied : List String)
    → none_busy review.hunks ≡ true
    → begin_accept_all review ≡ some (ids, busy)
    → may_settle (end_accept_all ids (some applied) busy) ≡ true
unfolding begin_accept_all open_of pending_hunks end_accept_all
end_accept_all-settles review busy ids applied b h =
    let open_ids = map (λ h. h.hunk.id) (free review.hunks) in
    if-split
      (λ (o : Option (List String × InlineReview)).
        o ≡ some (ids, busy) → may_settle (end_accept_all ids (some applied) busy) ≡ true)
      (review.read_only || not (ltb 0 (length open_ids))) (λ _ k. ground (arith, k))
      (λ e k.
        let (r, n) = not_read_only review.read_only (ltb 0 (length open_ids)) e in
        subst
          (λ (p : List String × InlineReview).
            may_settle (end_accept_all p.0 (some applied) p.1) ≡ true)
          (some-inj k) (begun-settles review applied b r (has_hunk review.hunks n)))
      h
