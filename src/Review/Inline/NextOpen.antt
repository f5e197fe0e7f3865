-- ===== src/Review/Inline/NextOpen.antt =====
-- inline-review-model.ts, `nextOpen`.
use inkstave.Prelude.{
  ℕ, zero, suc, ◌+◌, ◌%◌, ◌<◌, ◌≡◌, refl, sym, ◌⊎◌, inl, inr, true, false, List, if-split, length,
  arith, subst,
}
use inkstave.Review.Inline.{ReviewHunk, is_open_at, search_open, next_open}

split : (k step : ℕ) → k < suc step → (k < step) ⊎ (k ≡ step)
split k step lt = omega (arith, lt)

module _ (hunks : List ReviewHunk) (from : ℕ) where
  -- The index after some steps, around the end.
  abbrev pub at : ℕ → ℕ
  at step = (from + step) % length hunks

  -- No hunk on the way of the first steps is open.
  abbrev pub Passed : ℕ → Type 0
  Passed steps = (k : ℕ) → k < steps → is_open_at hunks (at k) ≡ false

  -- The first open hunk from here on, or this place where a whole round finds none.
  pub data IsNextOpen (index : ℕ) : Type 0 where
    found :
        (step : ℕ) (near : step < length hunks) (e : index ≡ at step)
        (on : is_open_at hunks index ≡ true) (before : Passed step)
        → IsNextOpen index
    none_open : (e : index ≡ from) (all_closed : Passed (length hunks)) → IsNextOpen index

  Passed-suc : (step : ℕ) → Passed step → is_open_at hunks (at step) ≡ false → Passed (suc step)
  Passed-suc step before e k lt = elim (split k step lt) [
    | inl l ↦ before k l
    | inr same ↦ subst (λ j. is_open_at hunks (at j) ≡ false) (sym same) e
  ]

  search_open-IsNextOpen :
      (rounds step : ℕ)
      → step + rounds ≡ length hunks
      → Passed step
      → IsNextOpen (search_open hunks from rounds step)
  unfolding search_open
  search_open-IsNextOpen zero step e before =
      none_open refl (subst Passed (omega (arith, e)) before)
  search_open-IsNextOpen (suc rounds) step e before =
      if-split IsNextOpen (is_open_at hunks (at step))
        (λ on. found step (omega (arith, e)) refl on before)
        (λ off.
          search_open-IsNextOpen rounds (suc step) (omega (arith, e)) (Passed-suc step before off))

  -- What is found is the first open hunk at or after the given place, around the end, and the place
  -- itself if none is open.
  pub next_open-first : IsNextOpen (next_open hunks from)
  unfolding next_open
  next_open-first =
      search_open-IsNextOpen (length hunks) 0 (omega arith) (λ k lt. ground (arith, lt))
