-- ===== src/Review/Hunk.antt =====
-- types.ts and the head of hunks.ts: a hunk of a proposal, as the agent sends it and as the review
-- reads it.
use inkstave.Prelude.{
  ℕ, Bool, true, false, List, map, String, Text, if◌then◌else◌, str_eq, filter_by,
}

pub data LineType : Type 0 where
  ctx add del : LineType

pub record HunkLine : Type 0 where
  pub type : LineType
  pub text : Text

pub record DiffHunk : Type 0 where
  pub id : String
  pub header : Text
  pub old_start : ℕ
  pub old_lines : ℕ
  pub new_start : ℕ
  pub new_lines : ℕ
  pub lines : List HunkLine

-- A line as it comes, with its mark " ", "-" or "+".
pub record WireLine : Type 0 where
  pub op : String
  pub text : Text

pub record WireHunk : Type 0 where
  pub hunk_id : String
  pub header : Text
  pub old_start : ℕ
  pub old_lines : ℕ
  pub new_start : ℕ
  pub new_lines : ℕ
  pub lines : List WireLine

-- `OP_TO_TYPE[op] ?? "ctx"`
op_to_type : String → LineType
op_to_type op = if str_eq op "-" then del else if str_eq op "+" then add else ctx

map_wire_hunk : WireHunk → DiffHunk
unfolding op_to_type
map_wire_hunk w = record {
  id = w.hunk_id;
  header = w.header;
  old_start = w.old_start;
  old_lines = w.old_lines;
  new_start = w.new_start;
  new_lines = w.new_lines;
  lines = map (λ l. record { type = op_to_type l.op; text = l.text }) w.lines;
}

abbrev not_add : HunkLine → Bool
not_add l = elim l.type [ ctx ↦ true | add ↦ false | del ↦ true ]

abbrev not_del : HunkLine → Bool
not_del l = elim l.type [ ctx ↦ true | add ↦ true | del ↦ false ]

-- The lines that the hunk expects, and the lines that it leaves.
unfoldable pub old_lines_of : DiffHunk → List Text
old_lines_of hunk = map (λ l. l.text) (filter_by not_add hunk.lines)

unfoldable pub new_lines_of : DiffHunk → List Text
new_lines_of hunk = map (λ l. l.text) (filter_by not_del hunk.lines)
