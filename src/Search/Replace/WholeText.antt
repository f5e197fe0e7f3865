-- ===== src/Search/Replace/WholeText.antt =====
-- All matches of a text replaced at once, on a copy and in the shared text.
use inkstave.Prelude.{
  ℕ, suc, ◌+◌, ◌-◌, ◌≤◌, ◌<◌, ◌≡◌, refl, sym, ap, ap₂, ◌∙◌, Bool, true, Option, List, [], ◌∷◌, ◌++◌,
  ◌==◌, length, slice, Text, take, drop, drop-drop, split_three, Bool-cases, inl, inr, arith, All,
  append-nil,
}
use inkstave.Edits.{Edit, one_pass, AreApart}
use inkstave.Crdt.{YText}
use inkstave.Crdt.Apply.{apply_splices_to_ytext}
use inkstave.Search.Find.{Found, TextMatch, line_starts, match_of, at_limit, collect, find_matches}
use inkstave.Search.Expand.{expand_replacement, expand_from, read_reference, value_of}
use inkstave.Search.Replace.{replacement_edits, apply_edits}
use inkstave.Search.Replace.Edits.{apply_edits-one_pass, apply_splices-apply_edits}

-- What the engine's `matchAll` promises: its results stand in the order of the text, do not overlap,
-- and each is the part of the text at its index.
abbrev pub AreResults : Text → ℕ → List Found → Type 0
AreResults text pos [] = pos ≤ length text
AreResults text pos (f ∷ fs) =
    (pos ≤ f.index)
    × (f.whole ≡ slice f.index (f.index + length f.whole) text)
    × AreResults text (f.index + length f.whole) fs

AreResults-le :
    (text : Text) (pos : ℕ) (fs : List Found) → AreResults text pos fs → pos ≤ length text
AreResults-le text pos [] h = h
AreResults-le text pos (f ∷ fs) h =
    omega (arith, AreResults-le text (f.index + length f.whole) fs h.2, h.0)

AreApart-back :
    (text : Text) (pos here : ℕ) (es : List (Edit ℕ))
    → here ≤ pos
    → AreApart pos (length text) es
    → AreApart here (length text) es
AreApart-back text pos here [] h k = omega arith
AreApart-back text pos here (e ∷ es) h k = (omega arith, k.1, k.2)

module _ (inherited : Text → Option Text) (text template : Text) (regex : Bool)
    (limit : Option ℕ) where
  edits_of : ℕ → List Found → List (Edit ℕ)
  edits_of count fs =
      replacement_edits inherited (collect text (line_starts text) limit count fs) template regex

  edits_of-AreInOrder :
      (count pos : ℕ) (fs : List Found)
      → AreResults text pos fs
      → AreApart pos (length text) (edits_of count fs)
        × All (λ (e : Edit ℕ). e.from < e.to) (edits_of count fs)
  unfolding edits_of collect replacement_edits match_of
  edits_of-AreInOrder count pos [] h = (h, tt)
  edits_of-AreInOrder count pos (f ∷ fs) h =
      let end = f.index + length f.whole in
      elim (Bool-cases (at_limit limit count)) [
        | inl e ↦ rw e (AreResults-le text pos (f ∷ fs) h, tt)
        | inr e ↦ elim (Bool-cases (length f.whole == 0)) [
          | inl g ↦
              let (apart, forward) = edits_of-AreInOrder count end fs h.2 in
              rw (e, g)
                (AreApart-back text end pos (edits_of count fs) (omega (arith, h.0)) apart, forward)
          | inr g ↦
              let (apart, forward) = edits_of-AreInOrder (suc count) end fs h.2 in
              rw (e, g) ((h.0, omega arith, apart), (ground arith, forward))
        ]
      ]

-- Replacing the matches of the shared text, from the back and in place, gives the text that replacing
-- them on a copy gives, for any template and limit.
pub replace_in_place :
    (inherited : Text → Option Text) (Y : YText) (y : Y.Carrier) (match_all : Text → List Found)
    (limit : Option ℕ) (template : Text) (regex : Bool)
    → AreResults (Y.to_string y) 0 (match_all (Y.to_string y))
    → Y.to_string (
        apply_splices_to_ytext Y y (
          replacement_edits inherited
            (find_matches (Y.to_string y) match_all limit)
            template
            regex))
      ≡ apply_edits (Y.to_string y) (
          replacement_edits inherited (find_matches (Y.to_string y) match_all limit) template regex)
unfolding find_matches edits_of
replace_in_place inherited Y y match_all limit template regex h =
    apply_splices-apply_edits Y y
      (replacement_edits inherited (find_matches (Y.to_string y) match_all limit) template regex)
      (edits_of-AreInOrder inherited (Y.to_string y) template regex limit 0 0
        (match_all (Y.to_string y)) h)

-- A pass that writes what is there.
module _ (text : Text) where
  AreSame : List (Edit ℕ) → Type 0
  AreSame es = All (λ (e : Edit ℕ). e.insert ≡ slice e.from e.to text) es

  one_pass-AreSame :
      (pos : ℕ) (es : List (Edit ℕ))
      → AreApart pos (length text) es
      → AreSame es
      → one_pass pos es (drop pos text) ≡ drop pos text
  unfolding one_pass AreSame
  one_pass-AreSame pos [] h k = refl
  one_pass-AreSame pos (e ∷ es) h k =
      let to : pos + (e.to - pos) ≡ e.to = omega arith in
      let from : pos + (e.from - pos) ≡ e.from = omega arith in
      let behind : drop (e.to - pos) (drop pos text) ≡ drop e.to text =
        drop-drop (e.to - pos) pos text ∙ ap (λ j. drop j text) to in
      let inside : e.insert ≡ take (e.to - e.from) (drop (e.from - pos) (drop pos text)) =
        k.0
        ∙ ap (take (e.to - e.from))
            (ap (λ j. drop j text) (sym from) ∙ sym (drop-drop (e.from - pos) pos text)) in
      ap₂ (λ x y. take (e.from - pos) (drop pos text) ++ (x ++ y)) inside
        (ap (one_pass e.to es) behind ∙ one_pass-AreSame e.to es h.2 k.1 ∙ sym behind)
      ∙ split_three (e.from - pos) (e.to - e.from) (e.to - pos) (drop pos text) (omega arith)

-- `$&`
abbrev pub whole_template : Text
whole_template = 36 ∷ 38 ∷ []

module _ (inherited : Text → Option Text) (text : Text) (limit : Option ℕ) where
  expand-whole_template :
      (match : TextMatch) → expand_replacement inherited whole_template match true ≡ match.text
  unfolding expand_replacement expand_from read_reference value_of
  expand-whole_template match = append-nil match.text

  collect-AreSame :
      (count pos : ℕ) (fs : List Found)
      → AreResults text pos fs
      → AreSame text (edits_of inherited text whole_template true limit count fs)
  unfolding edits_of collect replacement_edits match_of AreSame
  collect-AreSame count pos [] h = tt
  collect-AreSame count pos (f ∷ fs) h =
      let end = f.index + length f.whole in
      elim (Bool-cases (at_limit limit count)) [
        | inl e ↦ rw e tt
        | inr e ↦ elim (Bool-cases (length f.whole == 0)) [
          | inl g ↦ rw (e, g) (collect-AreSame count end fs h.2)
          | inr g ↦
              rw (e, g)
                (
                  expand-whole_template (match_of text (line_starts text) f) ∙ h.1,
                  collect-AreSame (suc count) end fs h.2,
                )
        ]
      ]

  -- Replacing every match by `$&` leaves the text as it is.
  pub replace_by_itself :
      (match_all : Text → List Found)
      → AreResults text 0 (match_all text)
      → apply_edits text
          (replacement_edits inherited (find_matches text match_all limit) whole_template true)
        ≡ text
  unfolding find_matches edits_of
  replace_by_itself match_all h =
      let ordered =
        edits_of-AreInOrder inherited text whole_template true limit 0 0 (match_all text) h in
      apply_edits-one_pass text
        (replacement_edits inherited (find_matches text match_all limit) whole_template true)
        ordered
      ∙ one_pass-AreSame text 0
          (replacement_edits inherited (find_matches text match_all limit) whole_template true)
          ordered.0 (collect-AreSame 0 0 (match_all text) h)
