-- ===== src/Discussion/Order/Tests.antt =====
-- Two threads of the open document, one of which is detached, and one of another document.
use inkstave.Prelude.{ℕ, none, some, List, [], ◌∷◌, String, IsSorted, if◌then◌else◌, str_eq}
use mathlib.Core.List.{Perm}
use inkstave.Discussion.Order.{
  CommentThread, OrderOptions, opened, all_files, rows_of, order_threads,
}
use inkstave.Discussion.Order.Sorted.{stands_after, order_threads-IsSorted}

abbrev thread_in : String → String → CommentThread
thread_in id document_id = record {
  id = id;
  document_id = document_id;
  created_at = "t";
  resolved_at = none;
}

abbrev threads : List CommentThread
threads = thread_in "a" "other" ∷ thread_in "b" "main" ∷ thread_in "c" "main" ∷ []

abbrev options : OrderOptions
options = record {
  current_document_id = some "main";
  ranges = λ id. if str_eq id "c" then some (record { from = 3; to = 5 }) else none;
  file_name = λ id. id;
  filter = opened;
  scope = all_files;
}

abbrev collation : String → ℕ
collation text = if str_eq text "main" then 1 else 0

order_threads-IsSorted_example :
    Perm (order_threads collation threads options) (rows_of options threads)
    × IsSorted (stands_after collation options) (order_threads collation threads options)
order_threads-IsSorted_example = order_threads-IsSorted collation options threads
