-- ===== src/Review/MinimalEdit.antt =====
-- hunks.ts, `minimalEdit`: the one region that takes a text to another, with the common prefix and
-- the common suffix kept.
pub mod Loops
pub mod Minimal
use mathlib.Core.Bool.{Bool, true, false, false≢true}
use native.Mathlib.Decide.{dec_lt}
use inkstave.Prelude.{
  ℕ, zero, suc, ◌+◌, ◌-◌, ◌≤◌, ◌<◌, ◌≡◌, refl, sym, ap, ap₂, subst, ◌∙◌, Option, none, some, List,
  [], ◌∷◌, ◌++◌, arith, ltb, ◌==◌, if◌then◌else◌, Bool-cases, ◌⊎◌, inl, inr, min, length, take,
  drop, slice, get_elem?, Text, drop_of_ge, split_three, take-append, drop-append, get_elem?-take,
  get_elem?-drop, drop-drop, length-take, length-drop, length-append, append_assoc,
}

pub record MinimalEdit : Type 0 where
  pub start : ℕ
  pub delete_length : ℕ
  pub insert : Text

-- `a[i] === b[j]` at indices of the texts.
abbrev pub same_unit : Option ℕ → Option ℕ → Bool
same_unit (some a) (some b) = a == b
same_unit none none = true
same_unit _ _ = false

-- The first loop, with the rounds that are left: `p` counts up.
unfoldable pub prefix_loop : Text → Text → ℕ → ℕ → ℕ
prefix_loop current target zero p = p
prefix_loop current target (suc left) p =
    let next = prefix_loop current target left (suc p) in
    if same_unit (get_elem? current p) (get_elem? target p) then next else p

-- The second loop, from the ends: `s` counts up.
unfoldable pub suffix_loop : Text → Text → ℕ → ℕ → ℕ
suffix_loop current target zero s = s
suffix_loop current target (suc left) s =
    let next = suffix_loop current target left (suc s) in
    let a = get_elem? current (length current - 1 - s) in
    let b = get_elem? target (length target - 1 - s) in if same_unit a b then next else s

unfoldable pub minimal_edit : Text → Text → MinimalEdit
unfolding prefix_loop suffix_loop
minimal_edit current target =
    let most = min (length current) (length target) in
    let p = prefix_loop current target most 0 in
    let s = suffix_loop current target (most - p) 0 in
    record {
      start = p;
      delete_length = length current - p - s;
      insert = slice p (length target - s) target;
    }

-- The text with the region of an edit replaced.
abbrev pub apply_edit : MinimalEdit → Text → Text
apply_edit e t = take e.start t ++ (e.insert ++ drop (e.start + e.delete_length) t)
