-- ===== src/Agent/History.antt =====
-- reducer.ts, `historyToItems`, and api.ts, `toFileOp`: a stored conversation as a transcript. What
-- `JSON.parse` makes of the content of a tool's message is a parameter: `ok` and the message of the
-- error, if there is one, or `none` when it throws.
pub mod Closed
mod Tests
use mathlib.Core.List.{foldl}
use inkstave.Prelude.{
  ℕ, Bool, true, false, not, ◌&&◌, Option, none, some, List, [], ◌∷◌, ◌++◌, map, if◌then◌else◌,
  ◌==◌, str_eq, length, String, Text, codes,
}
use inkstave.Agent.Types.{
  ChatRole, MessageStatus, ToolStatus, FileOp, TranscriptItem, message, tool, diff_proposal,
  file_op,
}
use inkstave.Agent.Handlers.{or}

pub record WireCall : Type 0 where
  pub id : String
  pub name : String
  pub arguments : String

pub record WireMessage : Type 0 where
  pub id : String
  pub role : String
  pub content : Option Text
  pub tool_call_id : Option String
  pub tool_calls : List WireCall

pub record WireDiffSummary : Type 0 where
  pub id : String
  pub path : String
  pub status : String
  pub hunk_count : Option ℕ

pub record WireFileOp : Type 0 where
  pub id : String
  pub kind : String
  pub entity_type : String
  pub path : String
  pub new_path : Option String
  pub affected_paths : List String
  pub status : String
  pub rationale : Option String

unfoldable pub to_file_op : WireFileOp → FileOp
to_file_op w = record {
  op_id = w.id;
  op_kind = w.kind;
  entity_type = w.entity_type;
  path = w.path;
  new_path = w.new_path;
  affected_paths = w.affected_paths;
  status = w.status;
  rationale = w.rationale;
}

-- An entry of the map of results.
pub record ToolOutcome : Type 0 where
  pub ok : Bool
  pub summary : String

abbrev pub outcome_of : Option (Bool × Option String) → ToolOutcome
outcome_of none = record { ok = false; summary = "unparseable result" }
outcome_of (some (ok, error)) = record { ok = ok; summary = or error "ok" }

-- The map, the newest entry first, and its `get`.
abbrev pub Outcomes : Type 0
Outcomes = List (String × ToolOutcome)

unfoldable pub get_outcome : Outcomes → String → Option ToolOutcome
get_outcome [] id = none
get_outcome ((key, outcome) ∷ outcomes) id =
    let older = get_outcome outcomes id in if str_eq key id then some outcome else older

module _ (parse : Text → Option (Bool × Option String)) where
  -- One round of the first loop; an empty id counts as none.
  unfoldable pub note_outcome : Outcomes → WireMessage → Outcomes
  note_outcome outcomes m =
      let id = or m.tool_call_id "" in
      if str_eq m.role "tool" && not (str_eq id "")
      then (id, outcome_of (parse (or m.content (codes "{}")))) ∷ outcomes
      else outcomes

  unfoldable pub tool_results : List WireMessage → Outcomes
  unfolding note_outcome
  tool_results messages = foldl note_outcome [] messages

abbrev pub status_of : Option ToolOutcome → ToolStatus
status_of none = ToolStatus.running
status_of (some outcome) = if outcome.ok then ToolStatus.ok else ToolStatus.failed

abbrev pub summary_of : Option ToolOutcome → Option String
summary_of none = none
summary_of (some outcome) = some outcome.summary

abbrev pub call_item : Outcomes → WireCall → TranscriptItem
call_item outcomes tc =
    let res = get_outcome outcomes tc.id in
    tool tc.id tc.name (some tc.arguments) (summary_of res) (status_of res) none

-- One round of the second loop.
unfoldable pub message_items : Outcomes → WireMessage → List TranscriptItem
message_items outcomes m =
    let text = or m.content [] in
    let said =
      if length text == 0
      then []
      else message m.id ChatRole.assistant text MessageStatus.complete ∷ [] in
    if str_eq m.role "user"
    then message m.id ChatRole.user text MessageStatus.complete ∷ []
    else if str_eq m.role "assistant"
    then map (call_item outcomes) m.tool_calls ++ said
    else []

unfoldable pub all_message_items : Outcomes → List WireMessage → List TranscriptItem
unfolding message_items
all_message_items outcomes [] = []
all_message_items outcomes (m ∷ messages) =
    message_items outcomes m ++ all_message_items outcomes messages

abbrev pub diff_item : WireDiffSummary → TranscriptItem
diff_item d = diff_proposal d.id d.id d.status ((d.path, or d.hunk_count 0) ∷ [])

unfoldable pub op_item : WireFileOp → TranscriptItem
unfolding to_file_op
op_item op = file_op op.id (to_file_op op)

unfoldable pub history_to_items :
    (Text → Option (Bool × Option String))
    → List WireMessage
    → List WireDiffSummary
    → List WireFileOp
    → List TranscriptItem
unfolding tool_results all_message_items op_item
history_to_items parse messages diffs file_ops =
    all_message_items (tool_results parse messages) messages
    ++ (map diff_item diffs ++ map op_item file_ops)
