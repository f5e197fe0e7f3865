-- ===== src/Table/Cells.antt =====
-- table-model.ts, `pasteGrid`: where the pasted cells go.
use inkstave.Prelude.{
  ℕ, zero, suc, ◌+◌, ◌-◌, ◌<◌, ◌≡◌, ◌≢◌, ◌⊎◌, ◌==◌, refl, sym, ap, ap₂, subst, ◌∙◌, min, max, true,
  false, ◌&&◌, Option, none, some, List, [], ◌∷◌, if◌then◌else◌, ltb, leb, length, get_elem?, set,
  String, arith, Bool-cases, inl, inr,
}
use inkstave.Table.{
  TableDraft, max_rows, max_columns, write_cell, tabulate, or, cell_at, widest, paste_line,
  paste_lines, paste_grid,
}
use inkstave.Table.Shape.{
  IsGrid, AreWide, length-tabulate, AreWide-tabulate, IsGrid-write_cell, IsGrid-paste_line,
}

abbrev override : Option String → Option String → Option String
override none old = old
override (some value) old = some value

-- What a pasted line that starts at (`r0`, `c0`) has for a cell, and what pasted lines have.
abbrev line_at : List String → ℕ → ℕ → ℕ → ℕ → Option String
line_at line r0 c0 r c = if (r == r0) && leb c0 c then get_elem? line (c - c0) else none

abbrev pub pasted_at : List (List String) → ℕ → ℕ → ℕ → ℕ → Option String
pasted_at pasted r0 c0 r c = if leb r0 r && leb c0 c then cell_at pasted (r - r0) (c - c0) else none

get_elem?-set_same :
    (row : List String) (c : ℕ) (value : String)
    → c < length row
    → get_elem? (set row c value) c ≡ some value
get_elem?-set_same [] c value h = absurd (omega arith)
get_elem?-set_same (x ∷ row) zero value h = refl
get_elem?-set_same (x ∷ row) (suc c) value h = get_elem?-set_same row c value (omega arith)

get_elem?-set_other :
    (row : List String) (c c' : ℕ) (value : String)
    → c ≢ c'
    → get_elem? (set row c value) c' ≡ get_elem? row c'
get_elem?-set_other [] c c' value h = refl
get_elem?-set_other (x ∷ row) zero zero value h = absurd (h refl)
get_elem?-set_other (x ∷ row) zero (suc c') value h = refl
get_elem?-set_other (x ∷ row) (suc c) zero value h = refl
get_elem?-set_other (x ∷ row) (suc c) (suc c') value h =
    get_elem?-set_other row c c' value (λ e. h (ap suc e))

cell_at-write_same :
    (n : ℕ) (cells : List (List String)) (r c : ℕ) (value : String)
    → AreWide n cells
    → r < length cells
    → c < n
    → cell_at (write_cell cells r c value) r c ≡ some value
cell_at-write_same n [] r c value h k l = absurd (omega arith)
cell_at-write_same n (row ∷ cells) zero c value h k l =
    get_elem?-set_same row c value (omega (arith, h.0))
cell_at-write_same n (row ∷ cells) (suc r) c value h k l =
    cell_at-write_same n cells r c value h.1 (omega arith) l

cell_at-write_other :
    (cells : List (List String)) (r c r' c' : ℕ) (value : String)
    → (r ≢ r') ⊎ (c ≢ c')
    → cell_at (write_cell cells r c value) r' c' ≡ cell_at cells r' c'
cell_at-write_other [] r c r' c' value h = refl
cell_at-write_other (row ∷ cells) zero c zero c' value (inl h) = absurd (h refl)
cell_at-write_other (row ∷ cells) zero c zero c' value (inr h) =
    get_elem?-set_other row c c' value h
cell_at-write_other (row ∷ cells) zero c (suc r') c' value h = refl
cell_at-write_other (row ∷ cells) (suc r) c zero c' value h = refl
cell_at-write_other (row ∷ cells) (suc r) c (suc r') c' value (inl h) =
    cell_at-write_other cells r c r' c' value (inl (λ e. h (ap suc e)))
cell_at-write_other (row ∷ cells) (suc r) c (suc r') c' value (inr h) =
    cell_at-write_other cells r c r' c' value (inr h)

-- How the part of a line changes when its first value is written.
line_at-here :
    (value : String) (line : List String) (r0 c0 : ℕ)
    → (line_at (value ∷ line) r0 c0 r0 c0 ≡ some value) × (line_at line r0 (suc c0) r0 c0 ≡ none)
line_at-here value line r0 c0 =
    let same : (r0 == r0) ≡ true = ground arith in
    let at : leb c0 c0 ≡ true = ground arith in
    let behind : leb (suc c0) c0 ≡ false = ground arith in
    let zeroth : c0 - c0 ≡ 0 = omega arith in
    (rw (same, at) (ap (get_elem? (value ∷ line)) zeroth), rw (same, behind))

line_at-other :
    (value : String) (line : List String) (r0 c0 r c : ℕ)
    → (r0 ≢ r) ⊎ (c0 ≢ c)
    → line_at (value ∷ line) r0 c0 r c ≡ line_at line r0 (suc c0) r c
line_at-other value line r0 c0 r c h = elim (Bool-cases (r == r0)) [
  | inr e ↦ rw e
  | inl e ↦ elim (Bool-cases (leb (suc c0) c)) [
    | inl f ↦
        let g : leb c0 c ≡ true = ground arith in
        let next : c - c0 ≡ suc (c - suc c0) = ground arith in
        rw (e, f, g) (ap (get_elem? (value ∷ line)) next)
    | inr f ↦ let g : leb c0 c ≡ false = ground arith in rw (e, f, g)
  ]
]

module _ (rows columns r c : ℕ) (inside_row : r < rows) (inside_column : c < columns) where
  cell_at-written_other :
      (cells : List (List String)) (r0 c0 : ℕ) (value : String)
      → (r0 ≢ r) ⊎ (c0 ≢ c)
      → cell_at (if ltb r0 rows && ltb c0 columns then write_cell cells r0 c0 value else cells) r c
        ≡ cell_at cells r c
  cell_at-written_other cells r0 c0 value h = elim (Bool-cases (ltb r0 rows && ltb c0 columns)) [
    | inl e ↦ rw e (cell_at-write_other cells r0 c0 r c value h)
    | inr e ↦ rw e
  ]

  cell_at-written_same :
      (cells : List (List String)) (value : String)
      → IsGrid rows columns cells
      → cell_at (if ltb r rows && ltb c columns then write_cell cells r c value else cells) r c
        ≡ some value
  cell_at-written_same cells value h =
      let inside : (ltb r rows && ltb c columns) ≡ true =
        ground (arith, inside_row, inside_column) in
      rw inside (cell_at-write_same columns cells r c value h.1 (omega (arith, h.0)) inside_column)

  here_or_other : (r0 c0 : ℕ) → (r ≡ r0) × (c ≡ c0) ⊎ ((r0 ≢ r) ⊎ (c0 ≢ c))
  here_or_other r0 c0 = elim (Bool-cases (r == r0)) [
    | inr e ↦ inr (inl (ground arith))
    | inl e ↦ elim (Bool-cases (c == c0)) [
      | inl f ↦ inl (ground arith, ground arith)
      | inr f ↦ inr (inr (ground arith))
    ]
  ]

  IsGrid-written :
      (cells : List (List String)) (r0 c0 : ℕ) (value : String)
      → IsGrid rows columns cells
      → IsGrid rows columns
          (if ltb r0 rows && ltb c0 columns then write_cell cells r0 c0 value else cells)
  IsGrid-written cells r0 c0 value h = elim (Bool-cases (ltb r0 rows && ltb c0 columns)) [
    | inl e ↦ rw e (IsGrid-write_cell rows columns cells r0 c0 value h)
    | inr e ↦ rw e h
  ]

  cell_at-paste_line :
      (cells : List (List String)) (r0 c0 : ℕ) (line : List String)
      → IsGrid rows columns cells
      → cell_at (paste_line rows columns cells r0 c0 line) r c
        ≡ override (line_at line r0 c0 r c) (cell_at cells r c)
  unfolding paste_line
  cell_at-paste_line cells r0 c0 [] h = ground arith
  cell_at-paste_line cells r0 c0 (value ∷ line) h =
      let written = if ltb r0 rows && ltb c0 columns then write_cell cells r0 c0 value else cells in
      cell_at-paste_line written r0 (suc c0) line (IsGrid-written cells r0 c0 value h)
      ∙ elim (here_or_other r0 c0) [
        | inl (same_row, same_column) ↦
            let at = line_at-here value line r c in
            subst
              (λ k.
                override (line_at line k (suc c0) r c) (
                  cell_at
                    (if ltb k rows && ltb c0 columns then write_cell cells k c0 value else cells) r
                    c)
                ≡ override (line_at (value ∷ line) k c0 r c) (cell_at cells r c))
              same_row
              (subst
                (λ k.
                  override (line_at line r (suc k) r c) (
                    cell_at
                      (if ltb r rows && ltb k columns then write_cell cells r k value else cells) r
                      c)
                  ≡ override (line_at (value ∷ line) r k r c) (cell_at cells r c))
                same_column
                (ap₂ override at.1 (cell_at-written_same cells value h)
                  ∙ sym (ap (λ o. override o (cell_at cells r c)) at.0)))
        | inr other ↦
            ap₂ override (sym (line_at-other value line r0 c0 r c other))
              (cell_at-written_other cells r0 c0 value other)
      ]

  pasted_at-here :
      (line : List String) (pasted : List (List String)) (c0 : ℕ) (old : Option String)
      → override (pasted_at pasted (suc r) c0 r c) (override (line_at line r c0 r c) old)
        ≡ override (pasted_at (line ∷ pasted) r c0 r c) old
  pasted_at-here line pasted c0 old =
      let same : (r == r) ≡ true = ground arith in
      let at : leb r r ≡ true = ground arith in
      let behind : leb (suc r) r ≡ false = ground arith in
      let zeroth : r - r ≡ 0 = omega arith in
      elim (Bool-cases (leb c0 c)) [
        | inl e ↦
            rw (same, at, behind, e)
              (ap (λ k. override (cell_at (line ∷ pasted) k (c - c0)) old) (sym zeroth))
        | inr e ↦ rw (same, at, behind, e)
      ]

  pasted_at-other :
      (line : List String) (pasted : List (List String)) (r0 c0 : ℕ) (old : Option String)
      → (r == r0) ≡ false
      → override (pasted_at pasted (suc r0) c0 r c) (override (line_at line r0 c0 r c) old)
        ≡ override (pasted_at (line ∷ pasted) r0 c0 r c) old
  pasted_at-other line pasted r0 c0 old ne = elim (Bool-cases (leb (suc r0) r)) [
    | inl f ↦
        let g : leb r0 r ≡ true = ground arith in
        let next : r - r0 ≡ suc (r - suc r0) = ground arith in
        elim (Bool-cases (leb c0 c)) [
          | inl e ↦
              rw (ne, f, g, e)
                (ap (λ k. override (cell_at (line ∷ pasted) k (c - c0)) old) (sym next))
          | inr e ↦ rw (ne, f, g, e)
        ]
    | inr f ↦ let g : leb r0 r ≡ false = ground arith in rw (ne, f, g)
  ]

  cell_at-paste_lines :
      (cells : List (List String)) (r0 c0 : ℕ) (pasted : List (List String))
      → IsGrid rows columns cells
      → cell_at (paste_lines rows columns cells r0 c0 pasted) r c
        ≡ override (pasted_at pasted r0 c0 r c) (cell_at cells r c)
  unfolding paste_lines
  cell_at-paste_lines cells r0 c0 [] h = ground arith
  cell_at-paste_lines cells r0 c0 (line ∷ pasted) h =
      cell_at-paste_lines (paste_line rows columns cells r0 c0 line) (suc r0) c0 pasted
        (IsGrid-paste_line rows columns cells r0 c0 line h)
      ∙ ap (override (pasted_at pasted (suc r0) c0 r c)) (cell_at-paste_line cells r0 c0 line h)
      ∙ elim (Bool-cases (r == r0)) [
        | inl e ↦
            let same : r ≡ r0 = ground arith in
            subst
              (λ k.
                override (pasted_at pasted (suc k) c0 r c)
                  (override (line_at line k c0 r c) (cell_at cells r c))
                ≡ override (pasted_at (line ∷ pasted) k c0 r c) (cell_at cells r c))
              same (pasted_at-here line pasted c0 (cell_at cells r c))
        | inr e ↦ pasted_at-other line pasted r0 c0 (cell_at cells r c) e
      ]

get_elem?-tabulate {ℓ} :
    {A : Type ℓ} (n i : ℕ) (f : ℕ → A) → i < n → get_elem? (tabulate n f) i ≡ some (f i)
get_elem?-tabulate zero i f h = absurd (omega arith)
get_elem?-tabulate (suc n) zero f h = refl
get_elem?-tabulate (suc n) (suc i) f h = get_elem?-tabulate n i (λ j. f (suc j)) (omega arith)

cell_at-tabulate :
    (rows columns r c : ℕ) (f : ℕ → ℕ → String)
    → r < rows
    → c < columns
    → cell_at (tabulate rows (λ i. tabulate columns (λ j. f i j))) r c ≡ some (f r c)
cell_at-tabulate rows columns r c f h k =
    rw (get_elem?-tabulate rows r (λ i. tabulate columns (λ j. f i j)) h, cell_at)
      (get_elem?-tabulate columns c (f r) k)

override-some : (new : Option String) (old : String) → override new (some old) ≡ some (or new old)
override-some none old = refl
override-some (some value) old = refl

-- Within the grown grid, a cell that the pasted rows reach has its pasted text, and every other one
-- has its old text, or is empty where there was none.
pub cell_at-paste_grid :
    (draft : TableDraft) (row column : ℕ) (pasted : List (List String)) (r c : ℕ)
    → r < min max_rows (max (length draft.cells) (row + length pasted))
    → c < min max_columns (max (length draft.columns) (column + widest pasted))
    → cell_at (paste_grid draft row column pasted).cells r c
      ≡ some (or (pasted_at pasted row column r c) (or (cell_at draft.cells r c) ""))
unfolding paste_grid
cell_at-paste_grid draft row column pasted r c h k =
    let rows = min max_rows (max (length draft.cells) (row + length pasted)) in
    let columns = min max_columns (max (length draft.columns) (column + widest pasted)) in
    let old : ℕ → List String = λ i. tabulate columns (λ j. or (cell_at draft.cells i j) "") in
    cell_at-paste_lines rows columns r c h k (tabulate rows old) row column pasted (
      length-tabulate rows old,
      AreWide-tabulate columns rows (λ i j. or (cell_at draft.cells i j) ""),
    )
    ∙ ap (override (pasted_at pasted row column r c))
        (cell_at-tabulate rows columns r c (λ i j. or (cell_at draft.cells i j) "") h k)
    ∙ override-some (pasted_at pasted row column r c) (or (cell_at draft.cells r c) "")
