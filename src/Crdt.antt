-- ===== src/Crdt.antt =====
-- The shared text of a document. `Y.Text` belongs to the library Yjs: it is a parameter here, a type
-- with its text, `delete` and `insert`, and what the code relies on of these two within the text.
pub mod Apply
mod Tests
use inkstave.Prelude.{ℕ, ◌+◌, ◌≤◌, ◌≡◌, refl, ◌++◌, length, take, drop, Text}

pub record YText : Type 1 where
  pub Carrier : Type 0
  pub to_string : Carrier → Text
  pub delete : Carrier → ℕ → ℕ → Carrier
  pub insert : Carrier → ℕ → Text → Carrier
  pub to_string-delete :
      (y : Carrier) (i n : ℕ)
      → i + n ≤ length (to_string y)
      → to_string (delete y i n) ≡ take i (to_string y) ++ drop (i + n) (to_string y)
  pub to_string-insert :
      (y : Carrier) (i : ℕ) (t : Text)
      → i ≤ length (to_string y)
      → to_string (insert y i t) ≡ take i (to_string y) ++ (t ++ drop i (to_string y))

-- A plain text meets the assumptions.
abbrev pub plain_text : YText
plain_text = record {
  Carrier = Text;
  to_string = λ t. t;
  delete = λ t i n. take i t ++ drop (i + n) t;
  insert = λ t i s. take i t ++ (s ++ drop i t);
  to_string-delete = λ t i n h. refl;
  to_string-insert = λ t i s h. refl;
}
