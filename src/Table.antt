-- ===== src/Table.antt =====
-- frontend/src/modules/insert-tools/table/table-model.ts: the draft of the table builder.
pub mod Shape
pub mod Kept
pub mod Cells
mod Tests
use mathlib.Core.List.{foldl}
use inkstave.Prelude.{
  ℕ, zero, suc, ◌+◌, ◌-◌, ◌≤◌, ◌<◌, min, max, Bool, true, false, ◌&&◌, Option, none, some, List, [],
  ◌∷◌, ◌++◌, map, if◌then◌else◌, ltb, leb, ◌==◌, length, get_elem?, set, String, Text,
}

pub data ColumnAlign : Type 0 where
  left center right paragraph : ColumnAlign

pub data TableStyle : Type 0 where
  booktabs grid : TableStyle

pub record TableColumn : Type 0 where
  pub align : ColumnAlign
  pub width : String

pub record TableDraft : Type 0 where
  pub cells : List (List String)
  pub columns : List TableColumn
  pub header : Bool
  pub style : TableStyle
  pub caption : String
  pub label : String
  pub placement : String
  pub cells_are_latex : Bool

abbrev pub max_rows : ℕ
max_rows = 30

abbrev pub max_columns : ℕ
max_columns = 15

abbrev pub repeat {ℓ} : {A : Type ℓ} → ℕ → A → List A
repeat zero x = []
repeat (suc n) x = x ∷ repeat n x

abbrev pub blank_row : ℕ → List String
blank_row columns = repeat columns ""

abbrev pub new_column : TableColumn
new_column = record { align = ColumnAlign.left; width = "3cm" }

unfoldable pub empty_table : ℕ → ℕ → TableDraft
empty_table rows columns = record {
  cells = repeat rows (blank_row columns);
  columns = repeat columns new_column;
  header = true;
  style = TableStyle.booktabs;
  caption = "";
  label = "tab:";
  placement = "htbp";
  cells_are_latex = false;
}

unfoldable pub add_row : TableDraft → TableDraft
add_row draft =
    if leb max_rows (length draft.cells)
    then draft
    else record draft { cells = draft.cells ++ blank_row (length draft.columns) ∷ [] }

-- `filter((_, i) => i !== index)`
abbrev pub remove_at {ℓ} : {A : Type ℓ} → List A → ℕ → List A
remove_at [] index = []
remove_at (x ∷ xs) zero = xs
remove_at (x ∷ xs) (suc index) = x ∷ remove_at xs index

unfoldable pub remove_row : TableDraft → ℕ → TableDraft
remove_row draft index =
    if leb (length draft.cells) 1
    then draft
    else record draft { cells = remove_at draft.cells index }

unfoldable pub add_column : TableDraft → TableDraft
add_column draft = if leb max_columns (length draft.columns) then draft else record draft {
  columns = draft.columns ++ new_column ∷ [];
  cells = map (λ row. row ++ "" ∷ []) draft.cells;
}

unfoldable pub remove_column : TableDraft → ℕ → TableDraft
remove_column draft index = if leb (length draft.columns) 1 then draft else record draft {
  columns = remove_at draft.columns index;
  cells = map (λ row. remove_at row index) draft.cells;
}

-- One element of a list changed, and nothing when there is none.
abbrev pub change_at {ℓ} : {A : Type ℓ} → (A → A) → List A → ℕ → List A
change_at f [] i = []
change_at f (x ∷ xs) zero = f x ∷ xs
change_at f (x ∷ xs) (suc i) = x ∷ change_at f xs i

abbrev pub write_cell : List (List String) → ℕ → ℕ → String → List (List String)
write_cell cells row column value = change_at (λ cell_row. set cell_row column value) cells row

unfoldable pub set_cell : TableDraft → ℕ → ℕ → String → TableDraft
set_cell draft row column value = record draft { cells = write_cell draft.cells row column value }

unfoldable pub set_column : TableDraft → ℕ → (TableColumn → TableColumn) → TableDraft
set_column draft index patch = record draft { columns = change_at patch draft.columns index }

abbrev pub or {ℓ} : {A : Type ℓ} → Option A → A → A
or none d = d
or (some a) d = a

-- `cells[r]?.[c]`
abbrev pub cell_at : List (List String) → ℕ → ℕ → Option String
cell_at cells r c = elim (get_elem? cells r) [ none ↦ none | some row ↦ get_elem? row c ]

-- `Array.from({ length: n }, (_, i) => f(i))`
abbrev pub tabulate {ℓ} : {A : Type ℓ} → ℕ → (ℕ → A) → List A
tabulate zero f = []
tabulate (suc n) f = f 0 ∷ tabulate n (λ i. f (suc i))

abbrev pub widest : List (List String) → ℕ
widest [] = 0
widest (line ∷ pasted) = max (length line) (widest pasted)

-- The inner loop of `pasteGrid`, and the outer one.
unfoldable pub paste_line : ℕ → ℕ → List (List String) → ℕ → ℕ → List String → List (List String)
paste_line rows columns cells r c [] = cells
paste_line rows columns cells r c (value ∷ line) =
    let written = if ltb r rows && ltb c columns then write_cell cells r c value else cells in
    paste_line rows columns written r (suc c) line

unfoldable pub paste_lines :
    ℕ → ℕ → List (List String) → ℕ → ℕ → List (List String) → List (List String)
unfolding paste_line
paste_lines rows columns cells r c [] = cells
paste_lines rows columns cells r c (line ∷ pasted) =
    paste_lines rows columns (paste_line rows columns cells r c line) (suc r) c pasted

unfoldable pub paste_grid : TableDraft → ℕ → ℕ → List (List String) → TableDraft
unfolding paste_lines
paste_grid draft row column pasted =
    let rows = min max_rows (max (length draft.cells) (row + length pasted)) in
    let columns = min max_columns (max (length draft.columns) (column + widest pasted)) in
    let cells = tabulate rows (λ r. tabulate columns (λ c. or (cell_at draft.cells r c) "")) in
    record draft {
      cells = paste_lines rows columns cells row column pasted;
      columns = tabulate columns (λ c. or (get_elem? draft.columns c) new_column);
    }
