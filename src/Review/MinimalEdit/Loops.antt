-- ===== src/Review/MinimalEdit/Loops.antt =====
-- hunks.ts, the two loops of `minimalEdit`.
use mathlib.Core.Bool.{true, false}
use inkstave.Prelude.{
  ℕ, zero, suc, ◌+◌, ◌-◌, ◌≤◌, ◌<◌, ◌≡◌, refl, sym, ap, ap₂, ◌∙◌, Option, none, some, [], ◌∷◌, ◌++◌,
  arith, Bool-cases, ◌⊎◌, inl, inr, min, length, take, drop, get_elem?, Text, drop_of_ge,
}
use inkstave.Review.MinimalEdit.{same_unit, prefix_loop, suffix_loop}

unit_at : (t : Text) (i : ℕ) → i < length t → (x : ℕ) × (get_elem? t i ≡ some x)
unit_at [] i h = absurd (omega arith)
unit_at (x ∷ t) zero h = (x, refl)
unit_at (x ∷ t) (suc i) h = unit_at t i (omega arith)

take_step : (t : Text) (i x : ℕ) → get_elem? t i ≡ some x → take (suc i) t ≡ take i t ++ x ∷ []
take_step [] i x h = ground arith
take_step (y ∷ t) zero x h = ground arith
take_step (y ∷ t) (suc i) x h = ap (λ r. y ∷ r) (take_step t i x h)

drop_step : (t : Text) (i x : ℕ) → get_elem? t i ≡ some x → drop i t ≡ x ∷ drop (suc i) t
drop_step [] i x h = ground arith
drop_step (y ∷ t) zero x h = ground arith
drop_step (y ∷ t) (suc i) x h = drop_step t i x h

same_unit_sound : (a b : ℕ) → same_unit (some a) (some b) ≡ true → a ≡ b
same_unit_sound a b h = ground arith

pub same_unit_refl : (o : Option ℕ) → same_unit o o ≡ true
same_unit_refl none = refl
same_unit_refl (some a) = ground arith

module _ (current target : Text) where
  -- What the first loop finds is common, and as long as there is.
  pub record IsPrefix (left p : ℕ) : Type 0 where
    pub low : p ≤ prefix_loop current target left p
    pub high : prefix_loop current target left p ≤ p + left
    pub common :
        take (prefix_loop current target left p) current
        ≡ take (prefix_loop current target left p) target
    pub ends :
        (prefix_loop current target left p ≡ p + left)
        ⊎ (same_unit
              (get_elem? current (prefix_loop current target left p))
              (get_elem? target (prefix_loop current target left p))
            ≡ false)

  prefix_loop-IsPrefix :
      (left p : ℕ)
      → p + left ≤ length current
      → p + left ≤ length target
      → take p current ≡ take p target
      → IsPrefix left p
  unfolding prefix_loop
  prefix_loop-IsPrefix zero p h k e = record {
    low = omega arith;
    high = omega arith;
    common = e;
    ends = inl (omega arith);
  }
  prefix_loop-IsPrefix (suc left) p h k e =
      elim (Bool-cases (same_unit (get_elem? current p) (get_elem? target p))) [
        | inl same ↦
            let (a, at_a) = unit_at current p (omega arith) in
            let (b, at_b) = unit_at target p (omega arith) in
            let a_eq_b : a ≡ b = ground arith in
            let grown : take (suc p) current ≡ take (suc p) target =
              take_step current p a at_a
              ∙ ap₂ (λ x y. x ++ y ∷ []) e a_eq_b
              ∙ sym (take_step target p b at_b) in
            let r = prefix_loop-IsPrefix left (suc p) (omega arith) (omega arith) grown in
            record {
              low = rw same (omega (arith, r.low));
              high = rw same (omega (arith, r.high));
              common = rw same r.common;
              ends = rw same (elim r.ends [ inl x ↦ inl (omega (arith, x)) | inr y ↦ inr y ]);
            }
        | inr other ↦ record {
          low = rw other (omega arith);
          high = rw other (omega arith);
          common = rw other e;
          ends = rw other (inr other);
        }
      ]

  -- The same of the second loop, with offsets from the ends.
  pub record IsSuffix (left s : ℕ) : Type 0 where
    pub low : s ≤ suffix_loop current target left s
    pub high : suffix_loop current target left s ≤ s + left
    pub common :
        drop (length current - suffix_loop current target left s) current
        ≡ drop (length target - suffix_loop current target left s) target
    pub ends :
        (suffix_loop current target left s ≡ s + left)
        ⊎ (same_unit
              (get_elem? current (length current - 1 - suffix_loop current target left s))
              (get_elem? target (length target - 1 - suffix_loop current target left s))
            ≡ false)

  suffix_grows :
      (s a b : ℕ)
      → suc s ≤ length current
      → suc s ≤ length target
      → get_elem? current (length current - 1 - s) ≡ some a
      → get_elem? target (length target - 1 - s) ≡ some b
      → a ≡ b
      → drop (length current - s) current ≡ drop (length target - s) target
      → drop (length current - suc s) current ≡ drop (length target - suc s) target
  suffix_grows s a b h k at_a at_b e same =
      let i : length current - suc s ≡ length current - 1 - s = omega arith in
      let j : length target - suc s ≡ length target - 1 - s = omega arith in
      let i' : suc (length current - 1 - s) ≡ length current - s = omega arith in
      let j' : suc (length target - 1 - s) ≡ length target - s = omega arith in
      ap (λ n. drop n current) i
      ∙ drop_step current (length current - 1 - s) a at_a
      ∙ ap₂ (λ x n. x ∷ drop n current) e i'
      ∙ ap (λ r. b ∷ r) same
      ∙ ap (λ n. b ∷ drop n target) (sym j')
      ∙ sym (drop_step target (length target - 1 - s) b at_b)
      ∙ ap (λ n. drop n target) (sym j)

  suffix_loop-IsSuffix :
      (left s : ℕ)
      → s + left ≤ length current
      → s + left ≤ length target
      → drop (length current - s) current ≡ drop (length target - s) target
      → IsSuffix left s
  unfolding suffix_loop
  suffix_loop-IsSuffix zero s h k e = record {
    low = omega arith;
    high = omega arith;
    common = e;
    ends = inl (omega arith);
  }
  suffix_loop-IsSuffix (suc left) s h k e =
      let ia = length current - 1 - s in
      let ib = length target - 1 - s in
      elim (Bool-cases (same_unit (get_elem? current ia) (get_elem? target ib))) [
        | inl same ↦
            let (a, at_a) = unit_at current ia (omega arith) in
            let (b, at_b) = unit_at target ib (omega arith) in
            let a_eq_b : a ≡ b = ground arith in
            let grown = suffix_grows s a b (omega arith) (omega arith) at_a at_b a_eq_b e in
            let r = suffix_loop-IsSuffix left (suc s) (omega arith) (omega arith) grown in
            record {
              low = rw same (omega (arith, r.low));
              high = rw same (omega (arith, r.high));
              common = rw same r.common;
              ends = rw same (elim r.ends [ inl x ↦ inl (omega (arith, x)) | inr y ↦ inr y ]);
            }
        | inr other ↦ record {
          low = rw other (omega arith);
          high = rw other (omega arith);
          common = rw other e;
          ends = rw other (inr other);
        }
      ]

  -- The two offsets that `minimal_edit` computes.
  abbrev pub most : ℕ
  most = min (length current) (length target)

  abbrev pub front : ℕ
  front = prefix_loop current target most 0

  abbrev pub back : ℕ
  back = suffix_loop current target (most - front) 0

  pub front-IsPrefix : IsPrefix most 0
  front-IsPrefix = prefix_loop-IsPrefix most 0 (omega arith) (omega arith) refl

  pub back-IsSuffix : IsSuffix (most - front) 0
  back-IsSuffix =
      suffix_loop-IsSuffix (most - front) 0 (omega (arith, front-IsPrefix.high))
        (omega (arith, front-IsPrefix.high))
        (drop_of_ge _ current (omega arith) ∙ sym (drop_of_ge _ target (omega arith)))
