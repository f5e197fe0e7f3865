-- ===== src/Search/Replace/Edits.antt =====
-- replace.ts, `applyEdits` on a copy of the text, beside `applySplicesToYText` on the shared text.
use mathlib.Core.List.{foldl, reverse, reverse-cons}
use inkstave.Prelude.{
  ℕ, ◌+◌, ◌-◌, ◌≤◌, ◌<◌, ◌≡◌, refl, sym, ap, ◌∙◌, true, false, List, [], ◌∷◌, ◌++◌, if◌then◌else◌,
  ◌==◌, length, Text, sort_by, sort_by_of_IsSorted, insert_sorted, IsSorted, take, drop, drop-drop,
  arith, All, All-append, append_assoc,
}
use inkstave.Edits.{Edit, one_pass, AreApart, foldl-reverse, foldr-splice_edit}
use inkstave.Crdt.{YText}
use inkstave.Crdt.Apply.{starts_before, write_splice, apply_splices_to_ytext}
use inkstave.Crdt.Apply.Laws.{to_string-foldr}
use inkstave.Search.Replace.{starts_behind_edit, apply_from, apply_edits}

apply_from-one_pass :
    (text out : Text) (pos size : ℕ) (es : List (Edit ℕ))
    → AreApart pos size es
    → apply_from text out pos es ≡ out ++ one_pass pos es (drop pos text)
unfolding apply_from one_pass
apply_from-one_pass text out pos size [] h = refl
apply_from-one_pass text out pos size (e ∷ es) h =
    let back : pos + (e.to - pos) ≡ e.to = omega arith in
    let front = take (e.from - pos) (drop pos text) in
    apply_from-one_pass text (out ++ (front ++ e.insert)) e.to size es h.2
    ∙ append_assoc out (front ++ e.insert) _
    ∙ ap (λ r. out ++ r) (append_assoc front e.insert _)
    ∙ ap (λ r. out ++ (front ++ (e.insert ++ one_pass e.to es r)))
        (sym (drop-drop (e.to - pos) pos text ∙ ap (λ j. drop j text) back))

-- The edits are in the order of the text, apart, and none is empty at its place.
abbrev pub AreInOrder : ℕ → List (Edit ℕ) → Type 0
AreInOrder size es = AreApart 0 size es × All (λ e. e.from < e.to) es

All-later :
    (pos size : ℕ) (es : List (Edit ℕ))
    → AreApart pos size es
    → All (λ (y : Edit ℕ). pos ≤ y.from) es
All-later pos size [] h = tt
All-later pos size (e ∷ es) h = (h.0, weaken es (All-later e.to size es h.2))
  where
    weaken :
        (xs : List (Edit ℕ))
        → All (λ (y : Edit ℕ). e.to ≤ y.from) xs
        → All (λ (y : Edit ℕ). pos ≤ y.from) xs
    weaken [] k = tt
    weaken (x ∷ xs) k = (omega (arith, h.0, h.1), weaken xs k.1)

All-not_behind :
    (e : Edit ℕ) (es : List (Edit ℕ))
    → All (λ (y : Edit ℕ). e.to ≤ y.from) es
    → e.from < e.to
    → All (λ y. starts_behind_edit e y ≡ false) es
All-not_behind e [] h k = tt
All-not_behind e (x ∷ es) h k = (ground arith, All-not_behind e es h.1 k)

AreApart-IsSorted :
    (pos size : ℕ) (es : List (Edit ℕ))
    → AreApart pos size es
    → All (λ (e : Edit ℕ). e.from < e.to) es
    → IsSorted starts_behind_edit es
AreApart-IsSorted pos size [] h k = tt
AreApart-IsSorted pos size (e ∷ es) h k =
    (All-not_behind e es (All-later e.to size es h.2) k.0, AreApart-IsSorted e.to size es h.2 k.1)

insert_sorted-last :
    (e : Edit ℕ) (es : List (Edit ℕ))
    → All (λ y. starts_before e y ≡ true) es
    → insert_sorted starts_before e es ≡ es ++ e ∷ []
unfolding insert_sorted
insert_sorted-last e [] h = refl
insert_sorted-last e (x ∷ es) h = rw h.0 (ap (λ r. x ∷ r) (insert_sorted-last e es h.1))

All-before :
    (e : Edit ℕ) (es : List (Edit ℕ))
    → All (λ (y : Edit ℕ). e.to ≤ y.from) es
    → e.from < e.to
    → All (λ y. starts_before e y ≡ true) es
All-before e [] h k = tt
All-before e (x ∷ es) h k = (ground arith, All-before e es h.1 k)

All-reverse : (P : Edit ℕ → Type 0) (es : List (Edit ℕ)) → All P es → All P (reverse es)
All-reverse P [] h = tt
All-reverse P (e ∷ es) h =
    rw reverse-cons (All-append P (reverse es) (e ∷ []) (All-reverse P es h.1) (h.0, tt))

sort_by-reverse :
    (pos size : ℕ) (es : List (Edit ℕ))
    → AreApart pos size es
    → All (λ (e : Edit ℕ). e.from < e.to) es
    → sort_by starts_before es ≡ reverse es
unfolding sort_by
sort_by-reverse pos size [] h k = refl
sort_by-reverse pos size (e ∷ es) h k =
    ap (insert_sorted starts_before e) (sort_by-reverse e.to size es h.2 k.1)
    ∙ insert_sorted-last e (reverse es) (
        All-reverse (λ y. starts_before e y ≡ true) es
          (All-before e es (All-later e.to size es h.2) k.0))
    ∙ sym (reverse-cons e es)

-- `applyEdits` writes edits that are in order in one pass.
pub apply_edits-one_pass :
    (text : Text) (es : List (Edit ℕ))
    → AreInOrder (length text) es
    → apply_edits text es ≡ one_pass 0 es text
unfolding apply_edits
apply_edits-one_pass text es h =
    ap (apply_from text [] 0)
      (sort_by_of_IsSorted starts_behind_edit es (AreApart-IsSorted 0 (length text) es h.0 h.1))
    ∙ apply_from-one_pass text [] 0 (length text) es h.0

-- Written into the shared text, from the back and one by one, edits that are in order give the text
-- that `applyEdits` gives on a copy.
pub apply_splices-apply_edits :
    (Y : YText) (y : Y.Carrier) (es : List (Edit ℕ))
    → AreInOrder (length (Y.to_string y)) es
    → Y.to_string (apply_splices_to_ytext Y y es) ≡ apply_edits (Y.to_string y) es
unfolding apply_splices_to_ytext one_pass
apply_splices-apply_edits Y y es h = splices es h ∙ sym (apply_edits-one_pass (Y.to_string y) es h)
  where
    splices :
        (es : List (Edit ℕ))
        → AreInOrder (length (Y.to_string y)) es
        → Y.to_string (apply_splices_to_ytext Y y es) ≡ one_pass 0 es (Y.to_string y)
    splices [] k = refl
    splices (e ∷ es) k =
        let any : (length (e ∷ es) == 0) ≡ false = ground arith in
        ap
          (λ b.
            Y.to_string
              (if b then y else foldl (write_splice Y) y (sort_by starts_before (e ∷ es))))
          any
        ∙ ap (λ l. Y.to_string (foldl (write_splice Y) y l))
            (sort_by-reverse 0 (length (Y.to_string y)) (e ∷ es) k.0 k.1)
        ∙ ap Y.to_string (foldl-reverse (write_splice Y) y (e ∷ es))
        ∙ (to_string-foldr Y (e ∷ es) y 0 k.0).0
        ∙ foldr-splice_edit (e ∷ es) (Y.to_string y) k.0
