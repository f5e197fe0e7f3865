-- ===== src/Search/Expand.antt =====
-- replace.ts, `expandReplacement`: the references of a template. The scan by the regular expression
-- `REFERENCE` is written out; `named` is a plain object in the source, so that the operator `in` also
-- finds what it inherits: these values are a parameter.
pub mod Escape
use mathlib.Core.Option.{get_or}
use inkstave.Prelude.{
  ℕ, zero, suc, ◌+◌, ◌-◌, ◌*◌, Bool, true, false, ◌&&◌, Option, none, some, List, [], ◌∷◌, ◌++◌,
  if◌then◌else◌, ltb, leb, ◌==◌, length, take, get_elem?, Text, text_eq,
}
use inkstave.Search.Find.{TextMatch}

pub data Reference : Type 0 where
  dollar whole_match : Reference
  by_name : (name : Text) → Reference
  by_number : (first : ℕ) (second : Option ℕ) → Reference

abbrev pub is_digit : ℕ → Bool
is_digit c = leb 48 c && leb c 57

-- `([^>]*)>`: the name, and what stands behind it.
unfoldable pub read_name : Text → Option (Text × Text)
read_name [] = none
read_name (c ∷ text) =
    let more = read_name text in
    if c == 62
    then some ([], text)
    else elim more [ none ↦ none | some (name, rest) ↦ some (c ∷ name, rest) ]

-- A second digit belongs to the reference.
unfoldable pub read_number : ℕ → Text → Reference × Text
read_number first [] = (by_number first none, [])
read_number first (c ∷ text) =
    if is_digit c then (by_number first (some (c - 48)), text) else (by_number first none, c ∷ text)

-- The reference behind a `$`, and the rest of the template.
unfoldable pub read_reference : Text → Option (Reference × Text)
unfolding read_name read_number
read_reference [] = none
read_reference (c ∷ text) =
    if c == 36
    then some (dollar, text)
    else if c == 38
    then some (whole_match, text)
    else if c == 60
    then elim (read_name text) [ none ↦ none | some (name, rest) ↦ some (by_name name, rest) ]
    else if is_digit c
    then some (read_number (c - 48) text)
    else none

-- The group with a number from 1; a group that took no part is empty.
abbrev group_at : List (Option Text) → ℕ → Option Text
group_at groups zero = none
group_at groups (suc i) = elim (get_elem? groups i) [
  | none ↦ none
  | some none ↦ some []
  | some (some text) ↦ some text
]

unfoldable pub group_reference : TextMatch → ℕ → Option ℕ → Text → Text
group_reference match first none whole = get_or (group_at match.groups first) whole
group_reference match first (some second) whole =
    elim (group_at match.groups (10 * first + second)) [
      | some text ↦ text
      | none ↦ elim (group_at match.groups first) [
        | some text ↦ text ++ (48 + second) ∷ []
        | none ↦ whole
      ]
    ]

-- `name in match.named`, with the value.
unfoldable pub named_value : (Text → Option Text) → List (Text × Option Text) → Text → Option Text
named_value inherited [] name = inherited name
named_value inherited ((key, value) ∷ named) name =
    let later = named_value inherited named name in
    if text_eq key name then some (get_or value []) else later

module _ (inherited : Text → Option Text) (match : TextMatch) where
  -- The function that `replace` calls.
  unfoldable pub value_of : Reference → Text → Text
  unfolding named_value group_reference
  value_of dollar whole = 36 ∷ []
  value_of whole_match whole = match.text
  value_of (by_name name) whole = get_or (named_value inherited match.named name) whole
  value_of (by_number first second) whole = group_reference match first second whole

  -- The scan, with fuel for the units of the template.
  unfoldable pub expand_from : ℕ → Text → Text
  unfolding read_reference value_of
  expand_from zero template = []
  expand_from (suc fuel) [] = []
  expand_from (suc fuel) (c ∷ template) =
      let next = expand_from fuel template in
      if c == 36
      then elim (read_reference template) [
        | none ↦ c ∷ next
        | some (reference, rest) ↦
            let after = expand_from fuel rest in
            value_of reference (take (suc (length template) - length rest) (c ∷ template)) ++ after
      ]
      else c ∷ next

unfoldable pub expand_replacement : (Text → Option Text) → Text → TextMatch → Bool → Text
unfolding expand_from
expand_replacement inherited template match regex =
    if regex then expand_from inherited match (length template) template else template
