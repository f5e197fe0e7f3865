-- ===== src/Table/Shape.antt =====
-- table-model.ts: the shape of a table, and the shapes of its rows under the helpers.
use inkstave.Prelude.{
  ℕ, zero, suc, ◌+◌, ◌≤◌, ◌≡◌, refl, ◌∙◌, ◌&&◌, List, [], ◌∷◌, map, if◌then◌else◌, ltb, length,
  length-set, set, String, arith, All, Bool-cases, inl, inr,
}
use inkstave.Table.{
  TableDraft, max_rows, max_columns, repeat, blank_row, remove_at, change_at, write_cell, tabulate,
  paste_line, paste_lines,
}

pub record IsTable (draft : TableDraft) : Type 0 where
  pub some_row : 1 ≤ length draft.cells
  pub few_rows : length draft.cells ≤ max_rows
  pub some_column : 1 ≤ length draft.columns
  pub few_columns : length draft.columns ≤ max_columns
  pub rows : All (λ row. length row ≡ length draft.columns) draft.cells

module _ {ℓ} {A : Type ℓ} where
  pub length-repeat : (n : ℕ) (x : A) → length (repeat n x) ≡ n
  length-repeat zero x = omega arith
  length-repeat (suc n) x = omega (arith, length-repeat n x)

  pub length-remove_at :
      (xs : List A) (i : ℕ)
      → length (remove_at xs i) + (if ltb i (length xs) then 1 else 0) ≡ length xs
  length-remove_at [] i = ground arith
  length-remove_at (x ∷ xs) zero = ground arith
  length-remove_at (x ∷ xs) (suc i) = ground (arith, length-remove_at xs i)

  pub length-change_at : (f : A → A) (xs : List A) (i : ℕ) → length (change_at f xs i) ≡ length xs
  length-change_at f [] i = refl
  length-change_at f (x ∷ xs) zero = refl
  length-change_at f (x ∷ xs) (suc i) = omega (arith, length-change_at f xs i)

  pub length-tabulate : (n : ℕ) (f : ℕ → A) → length (tabulate n f) ≡ n
  length-tabulate zero f = omega arith
  length-tabulate (suc n) f = omega (arith, length-tabulate n (λ i. f (suc i)))

-- Every row has a length.
abbrev pub AreWide : ℕ → List (List String) → Type 0
AreWide n cells = All (λ (row : List String). length row ≡ n) cells

pub AreWide-repeat : (n rows : ℕ) → AreWide n (repeat rows (blank_row n))
AreWide-repeat n zero = tt
AreWide-repeat n (suc rows) = (length-repeat n "", AreWide-repeat n rows)

pub AreWide-remove_at :
    (n : ℕ) (cells : List (List String)) (i : ℕ) → AreWide n cells → AreWide n (remove_at cells i)
AreWide-remove_at n [] i h = tt
AreWide-remove_at n (row ∷ cells) zero h = h.1
AreWide-remove_at n (row ∷ cells) (suc i) h = (h.0, AreWide-remove_at n cells i h.1)

-- A change of every row that changes the lengths alike.
module _ (f : List String → List String) (n m : ℕ)
    (law : (row : List String) → length row ≡ n → length (f row) ≡ m) where
  pub length-map_row : (cells : List (List String)) → length (map f cells) ≡ length cells
  length-map_row [] = refl
  length-map_row (row ∷ cells) = omega (arith, length-map_row cells)

  pub AreWide-map : (cells : List (List String)) → AreWide n cells → AreWide m (map f cells)
  AreWide-map [] h = tt
  AreWide-map (row ∷ cells) h = (law row h.0, AreWide-map cells h.1)

pub AreWide-write_cell :
    (n : ℕ) (cells : List (List String)) (r c : ℕ) (value : String)
    → AreWide n cells
    → AreWide n (write_cell cells r c value)
AreWide-write_cell n [] r c value h = tt
AreWide-write_cell n (row ∷ cells) zero c value h = (length-set row c value ∙ h.0, h.1)
AreWide-write_cell n (row ∷ cells) (suc r) c value h =
    (h.0, AreWide-write_cell n cells r c value h.1)

pub AreWide-tabulate :
    (n rows : ℕ) (f : ℕ → ℕ → String) → AreWide n (tabulate rows (λ r. tabulate n (λ c. f r c)))
AreWide-tabulate n zero f = tt
AreWide-tabulate n (suc rows) f =
    (length-tabulate n (f 0), AreWide-tabulate n rows (λ r. f (suc r)))

-- The loops of a paste keep the grid's size.
abbrev pub IsGrid : ℕ → ℕ → List (List String) → Type 0
IsGrid rows n cells = (length cells ≡ rows) × AreWide n cells

pub IsGrid-write_cell :
    (rows n : ℕ) (cells : List (List String)) (r c : ℕ) (value : String)
    → IsGrid rows n cells
    → IsGrid rows n (write_cell cells r c value)
IsGrid-write_cell rows n cells r c value h = (
  length-change_at (λ row. set row c value) cells r ∙ h.0,
  AreWide-write_cell n cells r c value h.1,
)

pub IsGrid-paste_line :
    (rows columns : ℕ) (cells : List (List String)) (r c : ℕ) (line : List String)
    → IsGrid rows columns cells
    → IsGrid rows columns (paste_line rows columns cells r c line)
unfolding paste_line
IsGrid-paste_line rows columns cells r c [] h = h
IsGrid-paste_line rows columns cells r c (value ∷ line) h =
    IsGrid-paste_line rows columns
      (if ltb r rows && ltb c columns then write_cell cells r c value else cells) r (suc c) line
      (elim (Bool-cases (ltb r rows && ltb c columns)) [
        | inl e ↦ rw e (IsGrid-write_cell rows columns cells r c value h)
        | inr e ↦ rw e h
      ])

pub IsGrid-paste_lines :
    (rows columns : ℕ) (cells : List (List String)) (r c : ℕ) (pasted : List (List String))
    → IsGrid rows columns cells
    → IsGrid rows columns (paste_lines rows columns cells r c pasted)
unfolding paste_lines
IsGrid-paste_lines rows columns cells r c [] h = h
IsGrid-paste_lines rows columns cells r c (line ∷ pasted) h =
    IsGrid-paste_lines rows columns (paste_line rows columns cells r c line) (suc r) c pasted
      (IsGrid-paste_line rows columns cells r c line h)
