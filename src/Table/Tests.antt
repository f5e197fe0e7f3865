-- ===== src/Table/Tests.antt =====
-- A small table.
use mathlib.Core.List.{foldl}
use inkstave.Prelude.{◌≡◌, some, List, [], ◌∷◌, String, arith}
use inkstave.Table.{empty_table, paste_grid, cell_at}
use inkstave.Table.Shape.{IsTable}
use inkstave.Table.Kept.{
  empty_table-IsTable, row_added, column_removed, grid_pasted, run_edit, run_edits-IsTable,
}
use inkstave.Table.Cells.{cell_at-paste_grid}

abbrev pasted : List (List String)
pasted = ("a" ∷ "b" ∷ []) ∷ ("c" ∷ []) ∷ []

run_edits-IsTable_example :
    IsTable (
      foldl run_edit (empty_table 3 3) (row_added ∷ column_removed 1 ∷ grid_pasted 3 1 pasted ∷ []))
run_edits-IsTable_example =
    run_edits-IsTable (empty_table 3 3) (row_added ∷ column_removed 1 ∷ grid_pasted 3 1 pasted ∷ [])
      (empty_table-IsTable 3 3 (omega arith) (omega arith) (omega arith) (omega arith))

cell_at-paste_grid_example : cell_at (paste_grid (empty_table 2 2) 1 1 pasted).cells 1 2 ≡ some "b"
unfolding empty_table
cell_at-paste_grid_example =
    cell_at-paste_grid (empty_table 2 2) 1 1 pasted 1 2 (omega arith) (omega arith)
