-- ===== src/Prelude/Sort.antt =====
-- `Array.prototype.sort`, which is stable: insertion by a test; elements that compare equal keep
-- their order.
use mathlib.Core.Path.{◌≡◌, refl, ap, ◌∙◌}
use mathlib.Core.Bool.{Bool, true, false}
use mathlib.Core.List.{List, [], ◌∷◌, Perm}
use mathlib.Core.List.Perm
use inkstave.Prelude.Tests.{if◌then◌else◌, Bool-cases}
use mathlib.Core.Logic.{inl, inr}
use inkstave.Prelude.Lists.{All}

-- The relation holds between every element and each later one.
abbrev pub ArePairwise {ℓ κ} : {A : Type ℓ} → (A → A → Type κ) → List A → Type κ
ArePairwise R [] = Unit
ArePairwise R (x ∷ xs) = All (R x) xs × ArePairwise R xs

module _ {ℓ} {A : Type ℓ} (after : A → A → Bool) where
  -- `x` stood before all of `ys`: it passes those that it compares greater than.
  unfoldable pub insert_sorted : A → List A → List A
  insert_sorted x [] = x ∷ []
  insert_sorted x (y ∷ ys) = if after x y then y ∷ insert_sorted x ys else x ∷ y ∷ ys

  unfoldable pub sort_by : List A → List A
  unfolding insert_sorted
  sort_by [] = []
  sort_by (x ∷ xs) = insert_sorted x (sort_by xs)

  insert_sorted-perm : (x : A) (ys : List A) → Perm (insert_sorted x ys) (x ∷ ys)
  unfolding insert_sorted
  insert_sorted-perm x [] = Perm.refl _
  insert_sorted-perm x (y ∷ ys) = elim (Bool-cases (after x y)) [
    | inl e ↦ rw e (Perm.trans (Perm.cons y (insert_sorted-perm x ys)) (Perm.swap x y ys))
    | inr e ↦ rw e (Perm.refl _)
  ]

  pub sort_by-perm : (xs : List A) → Perm (sort_by xs) xs
  unfolding sort_by
  sort_by-perm [] = Perm.refl _
  sort_by-perm (x ∷ xs) =
      Perm.trans (insert_sorted-perm x (sort_by xs)) (Perm.cons x (sort_by-perm xs))

  pub insert_sorted-All {κ} :
      (P : A → Type κ) (x : A) (ys : List A) → P x → All P ys → All P (insert_sorted x ys)
  unfolding insert_sorted
  insert_sorted-All P x [] p h = (p, tt)
  insert_sorted-All P x (y ∷ ys) p h = elim (Bool-cases (after x y)) [
    | inl e ↦ rw e (h.0, insert_sorted-All P x ys p h.1)
    | inr e ↦ rw e (p, h)
  ]

  pub sort_by-All {κ} : (P : A → Type κ) (xs : List A) → All P xs → All P (sort_by xs)
  unfolding sort_by
  sort_by-All P [] h = tt
  sort_by-All P (x ∷ xs) h = insert_sorted-All P x (sort_by xs) h.0 (sort_by-All P xs h.1)

  -- A relation that does not tell its sides apart.
  module _ {κ} (R : A → A → Type κ) (turn : (x y : A) → R x y → R y x) where
    insert_sorted-ArePairwise :
        (x : A) (ys : List A) → All (R x) ys → ArePairwise R ys → ArePairwise R (insert_sorted x ys)
    unfolding insert_sorted
    insert_sorted-ArePairwise x [] h k = (tt, tt)
    insert_sorted-ArePairwise x (y ∷ ys) h k = elim (Bool-cases (after x y)) [
      | inl e ↦
          rw e (
            insert_sorted-All (R y) x ys (turn x y h.0) k.0,
            insert_sorted-ArePairwise x ys h.1 k.1,
          )
      | inr e ↦ rw e (h, k)
    ]

    -- Sorting keeps what holds between every two elements.
    pub sort_by-ArePairwise : (xs : List A) → ArePairwise R xs → ArePairwise R (sort_by xs)
    unfolding sort_by
    sort_by-ArePairwise [] k = tt
    sort_by-ArePairwise (x ∷ xs) k =
        insert_sorted-ArePairwise x (sort_by xs) (sort_by-All (R x) xs k.0)
          (sort_by-ArePairwise xs k.1)

  -- A relation that the test decides which way to sort for.
  module _ {κ} (R : A → A → Type κ) (swapped : (x y : A) → after x y ≡ true → R y x)
      (kept : (x y : A) → after x y ≡ false → R x y)
      (chain : (x y z : A) → R x y → R y z → R x z) where
    All-before : (x y : A) (zs : List A) → R x y → All (R y) zs → All (R x) zs
    All-before x y [] r h = tt
    All-before x y (z ∷ zs) r h = (chain x y z r h.0, All-before x y zs r h.1)

    insert_sorted-sorts :
        (x : A) (ys : List A) → ArePairwise R ys → ArePairwise R (insert_sorted x ys)
    unfolding insert_sorted
    insert_sorted-sorts x [] h = (tt, tt)
    insert_sorted-sorts x (y ∷ ys) h = elim (Bool-cases (after x y)) [
      | inl e ↦
          rw e (insert_sorted-All (R y) x ys (swapped x y e) h.0, insert_sorted-sorts x ys h.1)
      | inr e ↦ let r = kept x y e in rw e ((r, All-before x y ys r h.0), h)
    ]

    -- The relation holds from each element of the result to the later ones.
    pub sort_by-sorts : (xs : List A) → ArePairwise R (sort_by xs)
    unfolding sort_by
    sort_by-sorts [] = tt
    sort_by-sorts (x ∷ xs) = insert_sorted-sorts x (sort_by xs) (sort_by-sorts xs)

  -- No element compares greater than a later one.
  abbrev pub IsSorted : List A → Type ℓ
  IsSorted [] = Unit
  IsSorted (x ∷ xs) = All (λ y. after x y ≡ false) xs × IsSorted xs

  module _ (asymm : (x y : A) → after x y ≡ true → after y x ≡ false)
      (chain : (x y z : A) → after x y ≡ false → after y z ≡ false → after x z ≡ false) where
    All-chain :
        (x y : A) (zs : List A)
        → after x y ≡ false
        → All (λ z. after y z ≡ false) zs
        → All (λ z. after x z ≡ false) zs
    All-chain x y [] e h = tt
    All-chain x y (z ∷ zs) e h = (chain x y z e h.0, All-chain x y zs e h.1)

    pub insert_sorted-IsSorted : (x : A) (ys : List A) → IsSorted ys → IsSorted (insert_sorted x ys)
    unfolding insert_sorted
    insert_sorted-IsSorted x [] h = (tt, tt)
    insert_sorted-IsSorted x (y ∷ ys) h = elim (Bool-cases (after x y)) [
      | inl e ↦ rw e (
        insert_sorted-All (λ z. after y z ≡ false) x ys (asymm x y e) h.0,
        insert_sorted-IsSorted x ys h.1,
      )
      | inr e ↦ rw e ((e, All-chain x y ys e h.0), h)
    ]

    pub sort_by-IsSorted : (xs : List A) → IsSorted (sort_by xs)
    unfolding sort_by
    sort_by-IsSorted [] = tt
    sort_by-IsSorted (x ∷ xs) = insert_sorted-IsSorted x (sort_by xs) (sort_by-IsSorted xs)

  insert_sorted_of_le :
      (x : A) (ys : List A) → All (λ y. after x y ≡ false) ys → insert_sorted x ys ≡ x ∷ ys
  unfolding insert_sorted
  insert_sorted_of_le x [] h = refl
  insert_sorted_of_le x (y ∷ ys) h = rw h.0

  -- Sorting what is sorted changes nothing: elements that compare equal are not exchanged.
  pub sort_by_of_IsSorted : (xs : List A) → IsSorted xs → sort_by xs ≡ xs
  unfolding sort_by
  sort_by_of_IsSorted [] h = refl
  sort_by_of_IsSorted (x ∷ xs) h =
      ap (insert_sorted x) (sort_by_of_IsSorted xs h.1) ∙ insert_sorted_of_le x xs h.0

-- Two tests that agree on the elements sort them alike.
module _ {ℓ κ} {A : Type ℓ} (f g : A → A → Bool) (V : A → Type κ)
    (agree : (x y : A) → V x → V y → f x y ≡ g x y) where
  insert_sorted-agree :
      (x : A) (ys : List A) → V x → All V ys → insert_sorted f x ys ≡ insert_sorted g x ys
  unfolding insert_sorted
  insert_sorted-agree x [] v h = refl
  insert_sorted-agree x (y ∷ ys) v h = rw (agree x y v h.0, insert_sorted-agree x ys v h.1) refl

  pub sort_by-agree : (xs : List A) → All V xs → sort_by f xs ≡ sort_by g xs
  unfolding sort_by
  sort_by-agree [] h = refl
  sort_by-agree (x ∷ xs) h =
      ap (insert_sorted f x) (sort_by-agree xs h.1)
      ∙ insert_sorted-agree x (sort_by g xs) h.0 (sort_by-All g V xs h.1)
