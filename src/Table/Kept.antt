-- ===== src/Table/Kept.antt =====
-- table-model.ts: the shape of the table under the operations of the builder.
use mathlib.Core.List.{foldl}
use inkstave.Prelude.{
  ℕ, ◌+◌, ◌≤◌, ◌<◌, ◌≡◌, refl, min, max, List, [], ◌∷◌, ◌++◌, leb, length, length-append, get_elem?,
  String, arith, All-append, Bool-cases, inl, inr,
}
use inkstave.Table.{
  TableColumn, TableDraft, max_rows, max_columns, blank_row, new_column, empty_table, add_row,
  remove_at, remove_row, add_column, remove_column, set_cell, set_column, tabulate, or, cell_at,
  widest, paste_grid,
}
use inkstave.Table.Shape.{
  IsTable, length-repeat, length-remove_at, length-change_at, length-tabulate, AreWide-repeat,
  AreWide-remove_at, AreWide-map, length-map_row, IsGrid-write_cell, AreWide-tabulate,
  IsGrid-paste_lines,
}

pub empty_table-IsTable :
    (rows columns : ℕ)
    → 1 ≤ rows
    → rows ≤ max_rows
    → 1 ≤ columns
    → columns ≤ max_columns
    → IsTable (empty_table rows columns)
unfolding empty_table
empty_table-IsTable rows columns h k h' k' =
    let size = length-repeat rows (blank_row columns) in
    let width = length-repeat columns new_column in
    record {
      some_row = omega (arith, size);
      few_rows = omega (arith, size);
      some_column = omega (arith, width);
      few_columns = omega (arith, width);
      rows = rw (length-repeat columns new_column) (AreWide-repeat columns rows);
    }

add_row-IsTable : (draft : TableDraft) → IsTable draft → IsTable (add_row draft)
unfolding add_row
add_row-IsTable draft h = elim (Bool-cases (leb max_rows (length draft.cells))) [
  | inl full ↦ rw full h
  | inr room ↦
      let size = length-append draft.cells (blank_row (length draft.columns) ∷ []) in
      rw room (record {
        some_row = omega (arith, size);
        few_rows = ground (arith, size);
        some_column = h.some_column;
        few_columns = h.few_columns;
        rows =
            All-append (λ (row : List String). length row ≡ length draft.columns) draft.cells _
              h.rows (length-repeat (length draft.columns) "", tt);
      })
]

remove_row-IsTable :
    (draft : TableDraft) (index : ℕ) → IsTable draft → IsTable (remove_row draft index)
unfolding remove_row
remove_row-IsTable draft index h = elim (Bool-cases (leb (length draft.cells) 1)) [
  | inl last ↦ rw last h
  | inr more ↦
      let size = length-remove_at draft.cells index in
      let many : 1 < length draft.cells = ground arith in
      rw more (record {
        some_row = ground (arith, size, many);
        few_rows = ground (arith, size, h.few_rows);
        some_column = h.some_column;
        few_columns = h.few_columns;
        rows = AreWide-remove_at (length draft.columns) draft.cells index h.rows;
      })
]

add_column-IsTable : (draft : TableDraft) → IsTable draft → IsTable (add_column draft)
unfolding add_column
add_column-IsTable draft h = elim (Bool-cases (leb max_columns (length draft.columns))) [
  | inl full ↦ rw full h
  | inr room ↦
      let n = length draft.columns in
      let width = length-append draft.columns (new_column ∷ []) in
      let law : (row : List String)
          → length row ≡ n
          → length (row ++ "" ∷ []) ≡ length (draft.columns ++ new_column ∷ []) =
        λ row e. omega (arith, length-append row ("" ∷ []), width, e) in
      let size =
        length-map_row (λ row. row ++ "" ∷ []) n (length (draft.columns ++ new_column ∷ [])) law
          draft.cells in
      rw room (record {
        some_row = omega (arith, size, h.some_row);
        few_rows = omega (arith, size, h.few_rows);
        some_column = omega (arith, width);
        few_columns = ground (arith, width);
        rows =
            AreWide-map (λ row. row ++ "" ∷ []) n (length (draft.columns ++ new_column ∷ [])) law
              draft.cells h.rows;
      })
]

remove_column-IsTable :
    (draft : TableDraft) (index : ℕ) → IsTable draft → IsTable (remove_column draft index)
unfolding remove_column
remove_column-IsTable draft index h = elim (Bool-cases (leb (length draft.columns) 1)) [
  | inl last ↦ rw last h
  | inr more ↦
      let n = length draft.columns in
      let many : 1 < n = ground arith in
      let width = length-remove_at draft.columns index in
      let law : (row : List String)
          → length row ≡ n
          → length (remove_at row index) ≡ length (remove_at draft.columns index) =
        λ row e. ground (arith, length-remove_at row index, width, e) in
      let size =
        length-map_row (λ row. remove_at row index) n (length (remove_at draft.columns index)) law
          draft.cells in
      rw more (record {
        some_row = omega (arith, size, h.some_row);
        few_rows = omega (arith, size, h.few_rows);
        some_column = ground (arith, width, many);
        few_columns = ground (arith, width, h.few_columns);
        rows =
            AreWide-map (λ row. remove_at row index) n (length (remove_at draft.columns index)) law
              draft.cells h.rows;
      })
]

set_cell-IsTable :
    (draft : TableDraft) (row column : ℕ) (value : String)
    → IsTable draft
    → IsTable (set_cell draft row column value)
unfolding set_cell
set_cell-IsTable draft row column value h =
    let g =
      IsGrid-write_cell (length draft.cells) (length draft.columns) draft.cells row column value
        (refl, h.rows) in
    record {
      some_row = omega (arith, g.0, h.some_row);
      few_rows = omega (arith, g.0, h.few_rows);
      some_column = h.some_column;
      few_columns = h.few_columns;
      rows = g.1;
    }

set_column-IsTable :
    (draft : TableDraft) (index : ℕ) (patch : TableColumn → TableColumn)
    → IsTable draft
    → IsTable (set_column draft index patch)
unfolding set_column
set_column-IsTable draft index patch h =
    let width = length-change_at patch draft.columns index in
    record {
      some_row = h.some_row;
      few_rows = h.few_rows;
      some_column = omega (arith, width, h.some_column);
      few_columns = omega (arith, width, h.few_columns);
      rows = rw width h.rows;
    }

paste_grid-IsTable :
    (draft : TableDraft) (row column : ℕ) (pasted : List (List String))
    → IsTable draft
    → IsTable (paste_grid draft row column pasted)
unfolding paste_grid
paste_grid-IsTable draft row column pasted h =
    let rows = min max_rows (max (length draft.cells) (row + length pasted)) in
    let columns = min max_columns (max (length draft.columns) (column + widest pasted)) in
    let width = length-tabulate columns (λ c. or (get_elem? draft.columns c) new_column) in
    let start = tabulate rows (λ r. tabulate columns (λ c. or (cell_at draft.cells r c) "")) in
    let g = IsGrid-paste_lines rows columns start row column pasted (
      length-tabulate rows (λ r. tabulate columns (λ c. or (cell_at draft.cells r c) "")),
      AreWide-tabulate columns rows (λ r c. or (cell_at draft.cells r c) ""),
    ) in
    record {
      some_row = omega (arith, g.0, h.some_row);
      few_rows = omega (arith, g.0);
      some_column = omega (arith, width, h.some_column);
      few_columns = omega (arith, width);
      rows = rw width g.1;
    }

-- The operations of the builder, as one type.
pub data TableEdit : Type 0 where
  row_added column_added : TableEdit
  row_removed column_removed : (index : ℕ) → TableEdit
  cell_set : (row column : ℕ) (value : String) → TableEdit
  column_set : (index : ℕ) (patch : TableColumn → TableColumn) → TableEdit
  grid_pasted : (row column : ℕ) (pasted : List (List String)) → TableEdit

abbrev pub run_edit : TableDraft → TableEdit → TableDraft
run_edit draft row_added = add_row draft
run_edit draft column_added = add_column draft
run_edit draft (row_removed index) = remove_row draft index
run_edit draft (column_removed index) = remove_column draft index
run_edit draft (cell_set row column value) = set_cell draft row column value
run_edit draft (column_set index patch) = set_column draft index patch
run_edit draft (grid_pasted row column pasted) = paste_grid draft row column pasted

run_edit-IsTable :
    (draft : TableDraft) (edit : TableEdit) → IsTable draft → IsTable (run_edit draft edit)
run_edit-IsTable draft row_added h = add_row-IsTable draft h
run_edit-IsTable draft column_added h = add_column-IsTable draft h
run_edit-IsTable draft (row_removed index) h = remove_row-IsTable draft index h
run_edit-IsTable draft (column_removed index) h = remove_column-IsTable draft index h
run_edit-IsTable draft (cell_set row column value) h = set_cell-IsTable draft row column value h
run_edit-IsTable draft (column_set index patch) h = set_column-IsTable draft index patch h
run_edit-IsTable draft (grid_pasted row column pasted) h =
    paste_grid-IsTable draft row column pasted h

-- Any operations, one after the other, keep the shape: 1 to 30 rows, 1 to 15 columns, and in every row
-- one entry per column.
pub run_edits-IsTable :
    (draft : TableDraft) (edits : List TableEdit)
    → IsTable draft
    → IsTable (foldl run_edit draft edits)
run_edits-IsTable draft [] h = h
run_edits-IsTable draft (edit ∷ edits) h =
    run_edits-IsTable (run_edit draft edit) edits (run_edit-IsTable draft edit h)
