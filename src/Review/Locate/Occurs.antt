-- ===== src/Review/Locate/Occurs.antt =====
-- hunks.ts, the inner test of `locate`: whether the block of lines stands at a candidate.
use inkstave.Prelude.{
  ℕ, zero, suc, ◌≡◌, refl, ap, ap₂, ◌∙◌, true, some, List, [], ◌∷◌, arith, Option-cases, inl, inr,
  length, take, drop, get_elem?, Text, text_eq_sound, text_eq_refl,
}
use inkstave.Review.Locate.{line_is, fits_at}

-- The block stands at `cand`.
abbrev pub OccursAt : List Text → List Text → ℕ → Type 0
OccursAt lines needle cand = take (length needle) (drop cand lines) ≡ needle

drop_at :
    (lines : List Text) (i : ℕ) (x : Text)
    → get_elem? lines i ≡ some x
    → drop i lines ≡ x ∷ drop (suc i) lines
drop_at [] i x h = ground arith
drop_at (y ∷ lines) zero x h = ground arith
drop_at (y ∷ lines) (suc i) x h = drop_at lines i x h

get_at :
    (lines : List Text) (i : ℕ) (x : Text) (r : List Text)
    → drop i lines ≡ x ∷ r
    → get_elem? lines i ≡ some x
get_at [] zero x r h = ground arith
get_at [] (suc i) x r h = ground arith
get_at (y ∷ lines) zero x r h = ground arith
get_at (y ∷ lines) (suc i) x r h = get_at lines i x r h

pub fits_at_sound :
    (lines needle : List Text) (cand : ℕ)
    → fits_at lines needle cand ≡ true
    → OccursAt lines needle cand
unfolding fits_at line_is
fits_at_sound lines [] cand h = refl
fits_at_sound lines (n ∷ needle) cand h = elim (Option-cases (get_elem? lines cand)) [
  | inl missing ↦ ground arith
  | inr (line, found) ↦
      let same : line ≡ n = text_eq_sound line n (ground arith) in
      let more : fits_at lines needle (suc cand) ≡ true = ground arith in
      ap (take (suc (length needle))) (drop_at lines cand line found)
      ∙ ap₂ (λ x r. x ∷ r) same (fits_at_sound lines needle (suc cand) more)
]

take_parts :
    (n : Text) (needle xs : List Text)
    → take (suc (length needle)) xs ≡ n ∷ needle
    → (r : List Text) × (xs ≡ n ∷ r) × (take (length needle) r ≡ needle)
take_parts n needle [] h = ground arith
take_parts n needle (x ∷ xs) h = (xs, ground arith, ground arith)

pub fits_at_complete :
    (lines needle : List Text) (cand : ℕ)
    → OccursAt lines needle cand
    → fits_at lines needle cand ≡ true
unfolding fits_at line_is
fits_at_complete lines [] cand h = refl
fits_at_complete lines (n ∷ needle) cand h =
    let (r, e, more) = take_parts n needle (drop cand lines) h in
    let found = get_at lines cand n r e in
    let next : drop (suc cand) lines ≡ r = ground (arith, drop_at lines cand n found) in
    ground (
      arith,
      text_eq_refl n,
      fits_at_complete lines needle (suc cand) (ap (take (length needle)) next ∙ more),
    )
