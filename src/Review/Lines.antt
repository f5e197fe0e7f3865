-- ===== src/Review/Lines.antt =====
-- hunks.ts, `toLines` and `join`: the lines of a text and the text of the lines.
use inkstave.Prelude.{
  ℕ, ◌≡◌, refl, sym, ap, ◌∙◌, Bool, true, false, ◌&&◌, List, [], ◌∷◌, ◌++◌, arith, ltb, ◌==◌,
  if◌then◌else◌, Bool-cases, inl, inr, length, Text,
}
use mathlib.Core.Bool.{false≢true}

pub record Lines : Type 0 where
  pub lines : List Text
  pub trailing_newline : Bool

abbrev newline : ℕ
newline = 10

-- `content.split("\n")`: the units before a newline are the first line.
unfoldable pub add_unit : ℕ → List Text → List Text
add_unit c [] = []
add_unit c (line ∷ lines) = if c == newline then [] ∷ line ∷ lines else (c ∷ line) ∷ lines

unfoldable pub split_lines : Text → List Text
unfolding add_unit
split_lines [] = [] ∷ []
split_lines (c ∷ t) = add_unit c (split_lines t)

-- `content.endsWith("\n")`
unfoldable pub ends_with_newline : Text → Bool
ends_with_newline [] = false
ends_with_newline (c ∷ []) = c == newline
ends_with_newline (c ∷ d ∷ t) = ends_with_newline (d ∷ t)

-- `lines.pop()`
unfoldable pub pop : List Text → List Text
pop [] = []
pop (line ∷ []) = []
pop (line ∷ next ∷ lines) = line ∷ pop (next ∷ lines)

unfoldable pub to_lines : Text → Lines
unfolding split_lines ends_with_newline pop
to_lines [] = record { lines = []; trailing_newline = false }
to_lines (c ∷ t) =
    let trailing = ends_with_newline (c ∷ t) in
    let lines = split_lines (c ∷ t) in
    record { lines = if trailing then pop lines else lines; trailing_newline = trailing }

-- `lines.join("\n")`
unfoldable pub join_lines : List Text → Text
join_lines [] = []
join_lines (line ∷ []) = line
join_lines (line ∷ next ∷ lines) = line ++ newline ∷ join_lines (next ∷ lines)

unfoldable pub join : List Text → Bool → Text
unfolding join_lines
join lines trailing =
    let body = join_lines lines in
    if trailing && ltb 0 (length lines) then body ++ newline ∷ [] else body

add_unit-cons :
    (c : ℕ) (line : Text) (lines : List Text)
    → (l : Text) × (ls : List Text) × (add_unit c (line ∷ lines) ≡ l ∷ ls)
unfolding add_unit
add_unit-cons c line lines = elim (Bool-cases (c == newline)) [
  | inl h ↦ ([], line ∷ lines, rw h)
  | inr h ↦ (c ∷ line, lines, rw h)
]

split_lines-cons : (t : Text) → (line : Text) × (lines : List Text) × (split_lines t ≡ line ∷ lines)
unfolding split_lines
split_lines-cons [] = ([], [], refl)
split_lines-cons (c ∷ t) =
    let (line, lines, e) = split_lines-cons t in
    let (l, ls, f) = add_unit-cons c line lines in (l, ls, ap (add_unit c) e ∙ f)

join_lines-add_unit :
    (c : ℕ) (line : Text) (lines : List Text)
    → join_lines (add_unit c (line ∷ lines)) ≡ c ∷ join_lines (line ∷ lines)
unfolding add_unit join_lines
join_lines-add_unit c line [] = ground arith
join_lines-add_unit c line (next ∷ lines) = ground arith

-- Joining what was split gives the text.
join_lines-split_lines : (t : Text) → join_lines (split_lines t) ≡ t
unfolding split_lines
join_lines-split_lines [] = unfold join_lines in refl
join_lines-split_lines (c ∷ t) =
    let (line, lines, e) = split_lines-cons t in
    ap (λ ls. join_lines (add_unit c ls)) e
    ∙ join_lines-add_unit c line lines
    ∙ ap (λ ls. c ∷ join_lines ls) (sym e)
    ∙ ap (λ r. c ∷ r) (join_lines-split_lines t)

-- A text that ends in a newline has two lines at least.
add_unit-two :
    (c : ℕ) (line next : Text) (lines : List Text)
    → (l : Text) × (m : Text) × (ls : List Text) × (add_unit c (line ∷ next ∷ lines) ≡ l ∷ m ∷ ls)
unfolding add_unit
add_unit-two c line next lines = elim (Bool-cases (c == newline)) [
  | inl h ↦ ([], line, next ∷ lines, rw h)
  | inr h ↦ (c ∷ line, next, lines, rw h)
]

split_lines-two :
    (t : Text)
    → ends_with_newline t ≡ true
    → (l : Text) × (m : Text) × (ls : List Text) × (split_lines t ≡ l ∷ m ∷ ls)
unfolding split_lines ends_with_newline
split_lines-two [] h = absurd (false≢true h)
split_lines-two (c ∷ []) h = ([], [], [], rw h)
split_lines-two (c ∷ d ∷ t) h =
    let (l, m, ls, e) = split_lines-two (d ∷ t) h in
    let (l', m', ls', f) = add_unit-two c l m ls in (l', m', ls', ap (add_unit c) e ∙ f)

join_lines-pop-add_unit :
    (c : ℕ) (l m : Text) (ls : List Text)
    → join_lines (pop (add_unit c (l ∷ m ∷ ls))) ≡ c ∷ join_lines (pop (l ∷ m ∷ ls))
unfolding add_unit join_lines pop
join_lines-pop-add_unit c l m [] = ground arith
join_lines-pop-add_unit c l m (n ∷ ls) = ground arith

join_lines-pop :
    (t : Text) → ends_with_newline t ≡ true → join_lines (pop (split_lines t)) ++ newline ∷ [] ≡ t
unfolding split_lines ends_with_newline
join_lines-pop [] h = absurd (false≢true h)
join_lines-pop (c ∷ []) h =
    let e : c ≡ newline = ground arith in unfold add_unit pop join_lines in rw h (rw e)
join_lines-pop (c ∷ d ∷ t) h =
    let (l, m, ls, e) = split_lines-two (d ∷ t) h in
    ap (λ x. x ++ newline ∷ [])
      (ap (λ x. join_lines (pop (add_unit c x))) e
        ∙ join_lines-pop-add_unit c l m ls
        ∙ ap (λ x. c ∷ join_lines (pop x)) (sym e))
    ∙ ap (λ x. c ∷ x) (join_lines-pop (d ∷ t) h)

length-pop : (l m : Text) (ls : List Text) → ltb 0 (length (pop (l ∷ m ∷ ls))) ≡ true
unfolding pop
length-pop l m ls = ground arith

-- Splitting a text into lines and joining them gives the text back, with or without a last newline.
pub join-to_lines : (t : Text) → join (to_lines t).lines (to_lines t).trailing_newline ≡ t
unfolding join to_lines
join-to_lines [] = refl
join-to_lines (c ∷ t) = elim (Bool-cases (ends_with_newline (c ∷ t))) [
  | inl h ↦
      let (l, m, ls, e) = split_lines-two (c ∷ t) h in
      let any : ltb 0 (length (pop (split_lines (c ∷ t)))) ≡ true =
        ap (λ x. ltb 0 (length (pop x))) e ∙ length-pop l m ls in
      rw h (rw any (join_lines-pop (c ∷ t) h))
  | inr h ↦ rw h (join_lines-split_lines (c ∷ t))
]
