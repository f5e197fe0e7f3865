-- ===== src/Edits.antt =====
-- Edits of a sequence, each replacing the elements from `from` to `to`. The source applies such edits
-- in two ways: in one pass from the front (`applyEdits`), and one after the other from the back
-- (`rebaseHunks`, `applySplicesToYText`).
use mathlib.Core.List.{foldl, foldr, reverse, reverse-cons, foldl-append}
use inkstave.Prelude.{
  ℕ, zero, suc, ◌+◌, ◌-◌, ◌≤◌, ◌≡◌, refl, sym, ap, ap₂, subst, ◌∙◌, List, [], ◌∷◌, ◌++◌, arith,
  length, take, drop, drop-append, take-append_le, append_assoc, take-append-drop, drop-drop,
  length-take, take-take,
}

pub record Edit {ℓ} (A : Type ℓ) : Type ℓ where
  pub from : ℕ
  pub to : ℕ
  pub insert : List A

module _ {ℓ} {A : Type ℓ} where
  abbrev pub splice_edit : Edit A → List A → List A
  splice_edit e xs = take e.from xs ++ (e.insert ++ drop e.to xs)

  -- One pass: `rest` is the sequence from `pos` on.
  unfoldable pub one_pass : ℕ → List (Edit A) → List A → List A
  one_pass pos [] rest = rest
  one_pass pos (e ∷ es) rest =
      take (e.from - pos) rest ++ (e.insert ++ one_pass e.to es (drop (e.to - pos) rest))

  -- The edits stand in order and do not overlap.
  abbrev pub AreApart : ℕ → ℕ → List (Edit A) → Type 0
  AreApart pos size [] = pos ≤ size
  AreApart pos size (e ∷ es) = (pos ≤ e.from) × (e.from ≤ e.to) × AreApart e.to size es

  -- One more edit behind the others.
  pub AreApart-snoc :
      (pos mid size : ℕ) (es : List (Edit A)) (e : Edit A)
      → AreApart pos mid es
      → mid ≤ e.from
      → e.from ≤ e.to
      → e.to ≤ size
      → AreApart pos size (es ++ e ∷ [])
  AreApart-snoc pos mid size [] e h a b c = (omega arith, b, c)
  AreApart-snoc pos mid size (x ∷ es) e h a b c =
      (h.0, h.1, AreApart-snoc x.to mid size es e h.2 a b c)

  AreApart-le : (pos size : ℕ) (es : List (Edit A)) → AreApart pos size es → pos ≤ size
  AreApart-le pos size [] h = h
  AreApart-le pos size (e ∷ es) h = omega (arith, AreApart-le e.to size es h.2)

  take-nil : (n : ℕ) → take {A = A} n [] ≡ []
  take-nil zero = refl
  take-nil (suc n) = refl

  AreApart-from :
      (a b size : ℕ) (es : List (Edit A)) → a ≤ b → AreApart b size es → AreApart a size es
  AreApart-from a b size [] h k = omega arith
  AreApart-from a b size (e ∷ es) h k = (omega arith, k.1, k.2)

  take-add : (k n : ℕ) (xs : List A) → take (k + n) xs ≡ take k xs ++ take n (drop k xs)
  take-add zero n xs = let e : 0 + n ≡ n = omega arith in ap (λ j. take j xs) e
  take-add (suc k) n [] =
      let e : suc k + n ≡ suc (k + n) = omega arith in ap (λ j. take j []) e ∙ sym (take-nil n)
  take-add (suc k) n (x ∷ xs) =
      let e : suc k + n ≡ suc (k + n) = omega arith in
      ap (λ j. take j (x ∷ xs)) e ∙ ap (λ r. x ∷ r) (take-add k n xs)

  -- Starting the pass further on, with the elements in between copied.
  one_pass-shift :
      (pos k size : ℕ) (es : List (Edit A)) (rest : List A)
      → AreApart (pos + k) size es
      → one_pass pos es rest ≡ take k rest ++ one_pass (pos + k) es (drop k rest)
  unfolding one_pass
  one_pass-shift pos k size [] rest h = sym (take-append-drop k rest)
  one_pass-shift pos k size (e ∷ es) rest h =
      let front : e.from - pos ≡ k + (e.from - (pos + k)) = omega arith in
      let back : e.to - pos ≡ k + (e.to - (pos + k)) = omega arith in
      ap₂ (λ x y. x ++ (e.insert ++ one_pass e.to es y))
        (ap (λ j. take j rest) front ∙ take-add k (e.from - (pos + k)) rest)
        (ap (λ j. drop j rest) back ∙ sym (drop-drop (e.to - (pos + k)) k rest))
      ∙ append_assoc (take k rest) _ _

  -- From the back, one after the other, the edits do what one pass from the front does.
  pub foldr-splice_edit :
      (es : List (Edit A)) (xs : List A)
      → AreApart 0 (length xs) es
      → foldr splice_edit xs es ≡ one_pass 0 es xs
  unfolding one_pass
  foldr-splice_edit [] xs h = refl
  foldr-splice_edit (e ∷ es) xs h =
      let rest = one_pass e.to es (drop e.to xs) in
      let within = AreApart-le e.to (length xs) es h.2 in
      let zero_to : 0 + e.to ≡ e.to = omega arith in
      let from_zero : e.from - 0 ≡ e.from = omega arith in
      let to_zero : e.to - 0 ≡ e.to = omega arith in
      let cut = length-take e.to xs in
      let later : foldr splice_edit xs es ≡ take e.to xs ++ rest =
        foldr-splice_edit es xs (AreApart-from 0 e.to (length xs) es (omega arith) h.2)
        ∙ one_pass-shift 0 e.to (length xs) es xs
            (subst (λ j. AreApart j (length xs) es) (sym zero_to) h.2)
        ∙ ap (λ j. take e.to xs ++ one_pass j es (drop e.to xs)) zero_to in
      ap (splice_edit e) later
      ∙ ap₂ (λ x y. x ++ (e.insert ++ y))
          (take-append_le e.from (take e.to xs) rest (omega (arith, cut))
            ∙ take-take e.from e.to xs h.1
            ∙ ap (λ j. take j xs) (sym from_zero))
          (drop-append e.to 0 (take e.to xs) rest (omega (arith, cut))
            ∙ ap (λ j. one_pass e.to es (drop j xs)) (sym to_zero))

pub foldl-reverse {ℓ κ} :
    {A : Type ℓ} {B : Type κ} (f : B → A → B) (b : B) (xs : List A)
    → foldl f b (reverse xs) ≡ foldr (λ x y. f y x) b xs
foldl-reverse f b [] = refl
foldl-reverse f b (x ∷ xs) =
    ap (foldl f b) (reverse-cons x xs)
    ∙ foldl-append f b (reverse xs) (x ∷ [])
    ∙ ap (λ y. f y x) (foldl-reverse f b xs)
