-- ===== src/Search/Expand/Escape.antt =====
-- replace.ts, `expandReplacement`: templates with doubled `$`, and the fuel of the scan.
use inkstave.Prelude.{
  ℕ, zero, suc, ◌-◌, ◌≤◌, ◌<◌, ◌≡◌, refl, sym, ap, ◌∙◌, true, Option, some, [], ◌∷◌, ◌++◌,
  if◌then◌else◌, ◌==◌, length, take, Text, arith, Bool-cases, Option-cases, inl, inr,
}
use inkstave.Search.Find.{TextMatch}
use inkstave.Search.Expand.{
  Reference, is_digit, read_name, read_number, read_reference, value_of, expand_from,
  expand_replacement,
}

abbrev pub escape : Text → Text
escape [] = []
escape (c ∷ text) = if c == 36 then 36 ∷ 36 ∷ escape text else c ∷ escape text

read_name-shorter :
    (text name rest : Text) → read_name text ≡ some (name, rest) → length rest < length text
unfolding read_name
read_name-shorter [] name rest h = ground arith
read_name-shorter (c ∷ text) name rest h = elim (Bool-cases (c == 62)) [
  | inl e ↦ ground (arith, rw e at h)
  | inr e ↦ elim (Option-cases (read_name text)) [
    | inl missed ↦ ground (arith, rw (e, missed) at h)
    | inr ((before, after), found) ↦
        let shorter = read_name-shorter text before after found in
        ground (arith, shorter, rw (e, found) at h)
  ]
]

read_number-shorter : (first : ℕ) (text : Text) → length (read_number first text).1 ≤ length text
unfolding read_number
read_number-shorter first [] = omega arith
read_number-shorter first (c ∷ text) = ground arith

read_reference-shorter :
    (text rest : Text) (reference : Reference)
    → read_reference text ≡ some (reference, rest)
    → length rest < length text
unfolding read_reference
read_reference-shorter [] rest reference h = ground arith
read_reference-shorter (c ∷ text) rest reference h = elim (Bool-cases (c == 36)) [
  | inl e ↦ ground (arith, rw e at h)
  | inr e ↦ elim (Bool-cases (c == 38)) [
    | inl f ↦ ground (arith, rw (e, f) at h)
    | inr f ↦ elim (Bool-cases (c == 60)) [
      | inl g ↦ elim (Option-cases (read_name text)) [
        | inl missed ↦ ground (arith, rw (e, f, g, missed) at h)
        | inr ((name, after), found) ↦
            ground (arith, read_name-shorter text name after found, rw (e, f, g, found) at h)
      ]
      | inr g ↦ elim (Bool-cases (is_digit c)) [
        | inl d ↦ ground (arith, read_number-shorter (c - 48) text, rw (e, f, g, d) at h)
        | inr d ↦ ground (arith, rw (e, f, g, d) at h)
      ]
    ]
  ]
]

module _ (inherited : Text → Option Text) (match : TextMatch) where
  expand_from-nil : (fuel : ℕ) → expand_from inherited match fuel [] ≡ []
  unfolding expand_from
  expand_from-nil zero = refl
  expand_from-nil (suc fuel) = refl

  pub expand_from-fuel :
      (fuel other : ℕ) (template : Text)
      → length template ≤ fuel
      → length template ≤ other
      → expand_from inherited match fuel template ≡ expand_from inherited match other template
  unfolding expand_from
  expand_from-fuel fuel other [] h k = expand_from-nil fuel ∙ sym (expand_from-nil other)
  expand_from-fuel zero other (c ∷ template) h k = absurd (omega arith)
  expand_from-fuel (suc fuel) zero (c ∷ template) h k = absurd (omega arith)
  expand_from-fuel (suc fuel) (suc other) (c ∷ template) h k = elim (Bool-cases (c == 36)) [
    | inl e ↦ elim (Option-cases (read_reference template)) [
      | inl missed ↦
          rw (e, missed)
            (ap (λ next. c ∷ next)
              (expand_from-fuel fuel other template (omega arith) (omega arith)))
      | inr ((reference, rest), found) ↦
          let shorter = read_reference-shorter template rest reference found in
          rw (e, found)
            (ap
              (λ after.
                value_of inherited match reference
                  (take (suc (length template) - length rest) (c ∷ template))
                ++ after)
              (expand_from-fuel fuel other rest (omega (arith, shorter)) (omega (arith, shorter))))
    ]
    | inr e ↦
        rw e
          (ap (λ next. c ∷ next) (expand_from-fuel fuel other template (omega arith) (omega arith)))
  ]

  expand_from-escape :
      (fuel : ℕ) (text : Text)
      → length (escape text) ≤ fuel
      → expand_from inherited match fuel (escape text) ≡ text
  unfolding expand_from read_reference value_of
  expand_from-escape fuel [] h = expand_from-nil fuel
  expand_from-escape zero (c ∷ text) h = ground (arith, h)
  expand_from-escape (suc fuel) (c ∷ text) h = elim (Bool-cases (c == 36)) [
    | inl e ↦
        let is_dollar : c ≡ 36 = ground arith in
        rw (e, is_dollar)
          (ap (λ rest. 36 ∷ rest) (expand_from-escape fuel text (omega (arith, rw e at h))))
    | inr e ↦
        rw e
          (rw e (ap (λ rest. c ∷ rest) (expand_from-escape fuel text (omega (arith, rw e at h)))))
  ]

  -- Doubling every `$` of a text makes a template that stands for the text, whatever the match is.
  pub expand-escape : (text : Text) → expand_replacement inherited (escape text) match true ≡ text
  unfolding expand_replacement
  expand-escape text = expand_from-escape (length (escape text)) text (omega arith)
