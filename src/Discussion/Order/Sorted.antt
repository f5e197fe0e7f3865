-- ===== src/Discussion/Order/Sorted.antt =====
-- order.ts: the order of the rows.
use inkstave.Prelude.{
  ℕ, ◌≡◌, refl, sym, Bool, true, false, Option, none, some, List, [], ◌∷◌, map, String,
  if◌then◌else◌, ltb, ◌==◌, filter_by, sort_by, sort_by-perm, IsSorted, sort_by-IsSorted,
  sort_by-agree, All, arith, subst, Bool-cases, inl, inr,
}
use mathlib.Core.List.{Perm}
use inkstave.Discussion.Order.{
  ResolvedRange, CommentThread, ThreadRow, OrderOptions, rank, row_of, rows_of, after_of,
  comes_after, order_threads, in_scope, is_document, matches_status,
}

-- Where a row stands among those of its rank, and its age where that decides.
abbrev pub place_in_rank : Bool → Option ResolvedRange → ℕ → ℕ
place_in_rank false range name = name
place_in_rank true none name = 0
place_in_rank true (some range) name = range.from

abbrev pub age_in_rank : Bool → Option ResolvedRange → ℕ → ℕ
age_in_rank true (some range) age = 0
age_in_rank true none age = age
age_in_rank false range age = age

-- The order of three numbers, the first one first.
abbrev pub lex_after : ℕ → ℕ → ℕ → ℕ → ℕ → ℕ → Bool
lex_after a b c a' b' c' = if a == a' then (if b == b' then ltb c' c else ltb b' b) else ltb a' a

lex_asymm :
    (a b c a' b' c' : ℕ) → lex_after a b c a' b' c' ≡ true → lex_after a' b' c' a b c ≡ false
lex_asymm a b c a' b' c' h = ground (arith, h)

lex_chain :
    (a b c a' b' c' a'' b'' c'' : ℕ)
    → lex_after a b c a' b' c' ≡ false
    → lex_after a' b' c' a'' b'' c'' ≡ false
    → lex_after a b c a'' b'' c'' ≡ false
lex_chain a b c a' b' c' a'' b'' c'' h k = ground (arith, h, k)

-- Rows as the code makes them: only a row of the open document has a range.
abbrev IsRow : Bool → Option ResolvedRange → Type 0
IsRow current range = current ≡ false → range ≡ none

abbrev lex_of : Bool → Bool → Option ResolvedRange → Option ResolvedRange → ℕ → ℕ → ℕ → ℕ → Bool
lex_of current other range range' name name' age age' =
    lex_after (rank current range) (place_in_rank current range name)
      (age_in_rank current range age) (rank other range') (place_in_rank other range' name')
      (age_in_rank other range' age')

after_of-lex :
    (c c' : Bool) (r r' : Option ResolvedRange) (n n' a a' : ℕ)
    → IsRow c r
    → IsRow c' r'
    → after_of c c' r r' n n' a a' ≡ lex_of c c' r r' n n' a a'
after_of-lex true true (some r) (some r') n n' a a' h h' = ground arith
after_of-lex true true (some r) none n n' a a' h h' = refl
after_of-lex true true none (some r') n n' a a' h h' = refl
after_of-lex true true none none n n' a a' h h' = refl
after_of-lex true false (some r) none n n' a a' h h' = refl
after_of-lex true false none none n n' a a' h h' = refl
after_of-lex false true none (some r') n n' a a' h h' = refl
after_of-lex false true none none n n' a a' h h' = refl
after_of-lex false false none none n n' a a' h h' = ground arith
after_of-lex false c' (some r) r' n n' a a' h h' = ground (arith, h refl)
after_of-lex true false r (some r') n n' a a' h h' = ground (arith, h' refl)
after_of-lex false false none (some r') n n' a a' h h' = ground (arith, h' refl)

-- Every row is as the code makes it.
abbrev AreRows : List ThreadRow → Type 0
AreRows rows = All (λ (r : ThreadRow). IsRow r.current r.range) rows

filter-AreRows :
    (p : ThreadRow → Bool) (rows : List ThreadRow) → AreRows rows → AreRows (filter_by p rows)
filter-AreRows p [] k = tt
filter-AreRows p (row ∷ rows) (k, rest) = elim (Bool-cases (p row)) [
  | inl e ↦ rw e (k, filter-AreRows p rows rest)
  | inr e ↦ rw e (filter-AreRows p rows rest)
]

current_range-IsRow :
    (b : Bool) (range : Option ResolvedRange) → IsRow b (if b then range else none)
current_range-IsRow true range e = ground (arith, e)
current_range-IsRow false range e = refl

map-AreRows :
    (options : OrderOptions) (threads : List CommentThread) → AreRows (map (row_of options) threads)
map-AreRows options [] = tt
map-AreRows options (t ∷ threads) = (
  current_range-IsRow (is_document options.current_document_id t.document_id) (options.ranges t.id),
  map-AreRows options threads,
)

module _ (collation : String → ℕ) (options : OrderOptions) where
  -- The order that the panel means: the open document's threads by where they are, then its detached
  -- threads by age, then those of other documents by file name and age.
  abbrev pub stands_after : ThreadRow → ThreadRow → Bool
  stands_after a b =
      lex_of a.current b.current a.range b.range
        (collation (options.file_name a.thread.document_id))
        (collation (options.file_name b.thread.document_id)) (collation a.thread.created_at)
        (collation b.thread.created_at)

  comes_after-stands_after :
      (a b : ThreadRow)
      → IsRow a.current a.range
      → IsRow b.current b.range
      → comes_after collation options a b ≡ stands_after a b
  comes_after-stands_after a b h k =
      after_of-lex a.current b.current a.range b.range
        (collation (options.file_name a.thread.document_id))
        (collation (options.file_name b.thread.document_id)) (collation a.thread.created_at)
        (collation b.thread.created_at) h k

  abbrev IsInOrder : List ThreadRow → Type 0
  IsInOrder rows = IsSorted stands_after rows

  stands_after-IsInOrder : (rows : List ThreadRow) → IsInOrder (sort_by stands_after rows)
  stands_after-IsInOrder rows =
      sort_by-IsSorted stands_after
        (λ a b.
          lex_asymm (rank a.current a.range)
            (place_in_rank a.current a.range (collation (options.file_name a.thread.document_id)))
            (age_in_rank a.current a.range (collation a.thread.created_at)) (rank b.current b.range)
            (place_in_rank b.current b.range (collation (options.file_name b.thread.document_id)))
            (age_in_rank b.current b.range (collation b.thread.created_at)))
        (λ a b c.
          lex_chain (rank a.current a.range)
            (place_in_rank a.current a.range (collation (options.file_name a.thread.document_id)))
            (age_in_rank a.current a.range (collation a.thread.created_at)) (rank b.current b.range)
            (place_in_rank b.current b.range (collation (options.file_name b.thread.document_id)))
            (age_in_rank b.current b.range (collation b.thread.created_at)) (rank c.current c.range)
            (place_in_rank c.current c.range (collation (options.file_name c.thread.document_id)))
            (age_in_rank c.current c.range (collation c.thread.created_at)))
        rows

  -- The panel lists each row of the threads that the filter and the scope let through as often as they
  -- do, and the list is in order: by rank, within the first one by the place in the open document alone,
  -- within the second, the detached threads of that document, by age, and within the last, those of other
  -- documents, by file name and then age.
  pub order_threads-IsSorted :
      (threads : List CommentThread)
      → Perm (order_threads collation threads options) (rows_of options threads)
        × IsSorted stands_after (order_threads collation threads options)
  unfolding order_threads
  order_threads-IsSorted threads =
      let rows = rows_of options threads in
      let valid : AreRows rows =
        filter-AreRows (in_scope options.scope)
          (map (row_of options) (filter_by (λ t. matches_status t options.filter) threads))
          (map-AreRows options (filter_by (λ t. matches_status t options.filter) threads)) in
      (
        sort_by-perm (comes_after collation options) rows,
        subst (IsSorted stands_after)
            (sym (
              sort_by-agree (comes_after collation options) stands_after
                (λ (r : ThreadRow). IsRow r.current r.range) comes_after-stands_after rows valid))
            (stands_after-IsInOrder rows),
      )
