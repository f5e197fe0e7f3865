-- ===== src/Discussion/Order.antt =====
-- frontend/src/modules/discussion/comments/order.ts: which threads the panel lists, and in which order. Of
-- a thread only what this code reads is kept. `localeCompare` compares two texts by their places in the
-- order of the language, which is a parameter.
pub mod Sorted
mod Tests
use inkstave.Prelude.{
  ℕ, Bool, true, false, not, ◌&&◌, ◌||◌, Option, none, some, List, [], ◌∷◌, map, String,
  if◌then◌else◌, str_eq, ltb, ◌==◌, filter_by, sort_by,
}

pub record ResolvedRange : Type 0 where
  pub from : ℕ
  pub to : ℕ

pub record CommentThread : Type 0 where
  pub id : String
  pub document_id : String
  pub created_at : String
  pub resolved_at : Option String

pub data ThreadStatusFilter : Type 0 where
  opened resolved any_status : ThreadStatusFilter

pub data ThreadScope : Type 0 where
  file all_files : ThreadScope

pub record ThreadRow : Type 0 where
  pub thread : CommentThread
  pub current : Bool
  pub range : Option ResolvedRange

pub record OrderOptions : Type 0 where
  pub current_document_id : Option String
  pub ranges : String → Option ResolvedRange
  pub file_name : String → String
  pub filter : ThreadStatusFilter
  pub scope : ThreadScope

abbrev pub is_none {ℓ} : {A : Type ℓ} → Option A → Bool
is_none none = true
is_none (some a) = false

abbrev pub matches_status : CommentThread → ThreadStatusFilter → Bool
matches_status thread opened = is_none thread.resolved_at
matches_status thread resolved = not (is_none thread.resolved_at)
matches_status thread any_status = true

abbrev pub is_document : Option String → String → Bool
is_document none id = false
is_document (some current) id = str_eq id current

abbrev pub in_scope : ThreadScope → ThreadRow → Bool
in_scope all_files row = true
in_scope file row = row.current

-- `rank`, by the row's `current` and `range`.
abbrev pub rank : Bool → Option ResolvedRange → ℕ
rank false range = 2
rank true none = 1
rank true (some range) = 0

abbrev pub row_of : OrderOptions → CommentThread → ThreadRow
row_of options thread =
    let current = is_document options.current_document_id thread.document_id in
    record {
      thread = thread;
      current = current;
      range = if current then options.ranges thread.id else none;
    }

abbrev pub rows_of : OrderOptions → List CommentThread → List ThreadRow
rows_of options threads =
    filter_by (in_scope options.scope)
      (map (row_of options) (filter_by (λ t. matches_status t options.filter) threads))

-- The comparison of two rows of one rank: by the ranges, the names and the ages.
abbrev pub within_rank :
    Bool → Bool → Option ResolvedRange → Option ResolvedRange → ℕ → ℕ → ℕ → ℕ → Bool
within_rank current other (some a) (some b) name name' age age' = ltb b.from a.from
within_rank current other _ _ name name' age age' =
    if not current && not other && not (name == name') then ltb name' name else ltb age' age

-- Whether a row comes after another one, by what the comparison reads of each.
abbrev pub after_of :
    Bool → Bool → Option ResolvedRange → Option ResolvedRange → ℕ → ℕ → ℕ → ℕ → Bool
after_of current other range range' name name' age age' =
    if rank current range == rank other range'
    then within_rank current other range range' name name' age age'
    else ltb (rank other range') (rank current range)

module _ (collation : String → ℕ) where
  abbrev pub comes_after : OrderOptions → ThreadRow → ThreadRow → Bool
  comes_after options a b =
      after_of a.current b.current a.range b.range
        (collation (options.file_name a.thread.document_id))
        (collation (options.file_name b.thread.document_id)) (collation a.thread.created_at)
        (collation b.thread.created_at)

  unfoldable pub order_threads : List CommentThread → OrderOptions → List ThreadRow
  order_threads threads options = sort_by (comes_after options) (rows_of options threads)
