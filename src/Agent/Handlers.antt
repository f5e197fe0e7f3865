-- ===== src/Agent/Handlers.antt =====
-- reducer.ts: what one event of a run does to its state. The translation of a key (`i18n.t`) and the
-- decimal text of a number are parameters.
use Prim.Native.String
use mathlib.Core.Bool.{Bool, true, false}
use inkstave.Prelude.{
  ℕ, zero, suc, Option, none, some, List, [], ◌∷◌, ◌++◌, if◌then◌else◌, ◌==◌, str_eq, length, any,
  String, Text,
}
use inkstave.Agent.Types.{
  ChatRole, MessageStatus, ToolStatus, FileOp, TranscriptItem, message, tool, diff_proposal,
  file_op, error, RunPhase, RunStage, AgentRunState, AgentEvent,
}

pub record Env : Type 0 where
  pub translate : String → Text
  pub show_number : ℕ → String

abbrev pub or {ℓ} : {A : Type ℓ} → Option A → A → A
or none d = d
or (some a) d = a

abbrev pub initial_run_state : Option String → AgentRunState
initial_run_state session = record {
  session_id = session;
  run_id = none;
  phase = RunPhase.idle;
  items = [];
  error = none;
  seen_seqs = [];
  activity = none;
  started_at = none;
  last_event_at = none;
}

-- `Set.has` on the two sets of codes.
abbrev member : String → List String → Bool
member code codes = any (λ c. str_eq c code) codes

abbrev friendly_error_codes : List String
friendly_error_codes =
    "cancelled" ∷ "agent_rate_limited" ∷ "rate_limited" ∷ "agent_budget_exceeded"
    ∷ "budget_exceeded" ∷ "llm_error" ∷ "internal" ∷ "timeout" ∷ []

abbrev retryable_codes : List String
retryable_codes =
    "internal" ∷ "llm_error" ∷ "rate_limited" ∷ "agent_rate_limited" ∷ "transport" ∷ "timeout" ∷ []

-- A message that is still being written by the assistant.
abbrev pub is_open : TranscriptItem → Bool
is_open (message id ChatRole.assistant text MessageStatus.streaming) = true
is_open _ = false

-- The loop from the end; `none` for -1.
unfoldable pub open_assistant : List TranscriptItem → Option ℕ
open_assistant [] = none
open_assistant (item ∷ items) = elim (open_assistant items) [
  | none ↦ if is_open item then some 0 else none
  | some i ↦ some (suc i)
]

-- The `id` of an item.
abbrev pub id_of : TranscriptItem → String
id_of (message id role text status) = id
id_of (tool id name args result status error_text) = id
id_of (diff_proposal id proposal_id status files) = id
id_of (file_op id op) = id
id_of (error id code text retryable) = id

-- `items[idx] = { ...cur, … }`, for an item that is a message.
abbrev pub on_message : (Text → Text) → MessageStatus → TranscriptItem → TranscriptItem
on_message f status (message id role text old) = message id role (f text) status
on_message f status item = item

unfoldable pub modify :
    (TranscriptItem → TranscriptItem) → List TranscriptItem → ℕ → List TranscriptItem
modify f [] i = []
modify f (item ∷ items) zero = f item ∷ items
modify f (item ∷ items) (suc i) = item ∷ modify f items i

-- The open message, if there is one, gets a final status.
unfoldable pub settle_open : MessageStatus → List TranscriptItem → List TranscriptItem
unfolding open_assistant modify
settle_open status items = elim (open_assistant items) [
  | none ↦ items
  | some idx ↦ modify (on_message (λ text. text) status) items idx
]

unfoldable pub close_assistant : List TranscriptItem → List TranscriptItem
unfolding settle_open
close_assistant items = settle_open MessageStatus.complete items

-- `it.id === event.tool_call_id`
abbrev pub same_id : String → Option String → Bool
same_id id none = false
same_id id (some other) = str_eq id other

-- The first tool item with the event's id gets its result.
unfoldable pub finish_tool : List TranscriptItem → AgentEvent → List TranscriptItem
finish_tool [] event = []
finish_tool (tool id name args result status error_text ∷ items) event =
    let later = finish_tool items event in
    let finished : TranscriptItem =
      tool id name args event.summary (if event.ok then ToolStatus.ok else ToolStatus.failed)
        (if event.ok then none else event.summary) in
    if same_id id event.tool_call_id
    then finished ∷ items
    else tool id name args result status error_text ∷ later
finish_tool (item ∷ items) event = item ∷ finish_tool items event

unfoldable pub apply_tool_result : AgentRunState → AgentEvent → AgentRunState
unfolding finish_tool
apply_tool_result base event = record base { items = finish_tool base.items event }

module _ (env : Env) where
  -- `${prefix}${seq}` for an optional number, and with the fallback `?? items.length`.
  unfoldable pub numbered : String → Option ℕ → String
  numbered prefix none = String.◌++◌ prefix "undefined"
  numbered prefix (some n) = String.◌++◌ prefix (env.show_number n)

  unfoldable pub friendly_error : String → Text → Text
  friendly_error code text =
      if member code friendly_error_codes
      then env.translate (String.◌++◌ "agent:error.messages." code)
      else if length text == 0
      then env.translate "agent:error.messages.generic"
      else text

  -- The items of `applyToken`.
  unfoldable pub token_items : List TranscriptItem → AgentEvent → List TranscriptItem
  unfolding open_assistant modify numbered
  token_items items event = elim (open_assistant items) [
    | none ↦
        items
        ++ message (numbered "a-" (some (or event.seq (length items)))) ChatRole.assistant
            (or event.text []) MessageStatus.streaming
          ∷ []
    | some idx ↦
        modify (on_message (λ text. text ++ or event.text []) MessageStatus.streaming) items idx
  ]

  unfoldable pub apply_token : AgentRunState → AgentEvent → AgentRunState
  unfolding token_items
  apply_token base event = record base {
    items = token_items base.items event;
    phase = RunPhase.streaming;
    activity = some (record { stage = RunStage.writing; tool = none });
  }

  unfoldable pub apply_tool_call : AgentRunState → AgentEvent → AgentRunState
  unfolding close_assistant numbered
  apply_tool_call base event =
      let called : TranscriptItem =
        tool (or event.tool_call_id (numbered "tc-" event.seq)) (or event.name "tool")
          event.arguments none ToolStatus.running none in
      record base {
        items = close_assistant base.items ++ called ∷ [];
        phase = RunPhase.streaming;
        activity = some (record { stage = RunStage.tool; tool = event.name });
      }

  unfoldable pub apply_diff_proposed : AgentRunState → AgentEvent → AgentRunState
  unfolding numbered
  apply_diff_proposed base event =
      let proposal : TranscriptItem =
        diff_proposal (or event.diff_id (numbered "d-" event.seq)) (or event.diff_id "") "proposed"
          ((or event.path "", or event.hunk_count 0) ∷ []) in
      record base { items = base.items ++ proposal ∷ [] }

  unfoldable pub apply_file_op_proposed : AgentRunState → AgentEvent → AgentRunState
  unfolding numbered
  apply_file_op_proposed base event =
      let op_id = or event.file_op_id "" in
      let op : FileOp = record {
        op_id = op_id;
        op_kind = or event.kind "create";
        entity_type = or event.entity_type "doc";
        path = or event.path "";
        new_path = event.new_path;
        affected_paths = or event.affected_paths [];
        status = "proposed";
        rationale = event.rationale;
      } in
      let id = if str_eq op_id "" then numbered "op-" event.seq else op_id in
      record base { items = base.items ++ file_op id op ∷ [] }

  -- The items of `applyDone`: an empty final text counts as none.
  unfoldable pub done_items : List TranscriptItem → AgentEvent → List TranscriptItem
  unfolding open_assistant modify numbered
  done_items items event =
      let text = or event.final_text [] in
      elim (open_assistant items) [
        | some idx ↦ modify (on_message (λ t. t) MessageStatus.complete) items idx
        | none ↦
            if length text == 0
            then items
            else items
              ++ message (numbered "a-" event.seq) ChatRole.assistant text MessageStatus.complete
                ∷ []
      ]

  unfoldable pub apply_done : AgentRunState → AgentEvent → AgentRunState
  unfolding done_items
  apply_done base event = record base {
    items = done_items base.items event;
    phase = RunPhase.done;
    error = none;
  }

  unfoldable pub cancelled_items : List TranscriptItem → AgentEvent → List TranscriptItem
  unfolding open_assistant modify numbered
  cancelled_items items event = elim (open_assistant items) [
    | some idx ↦ modify (on_message (λ t. t) MessageStatus.cancelled) items idx
    | none ↦
        items
        ++ message (numbered "a-" (some (or event.seq (length items)))) ChatRole.assistant []
            MessageStatus.cancelled
          ∷ []
  ]

  unfoldable pub apply_cancelled : AgentRunState → AgentEvent → AgentRunState
  unfolding cancelled_items
  apply_cancelled base event = record base {
    items = cancelled_items base.items event;
    phase = RunPhase.cancelled;
    error = none;
  }

  -- `applyError` after the test for a cancellation.
  unfoldable pub report_error : AgentRunState → AgentEvent → String → AgentRunState
  unfolding friendly_error numbered
  report_error base event code =
      let text = friendly_error code (or event.message []) in
      let retryable = member code retryable_codes in
      let id = numbered "e-" (some (or event.seq (length base.items))) in
      record base {
        items = base.items ++ error id code text retryable ∷ [];
        phase = RunPhase.failed;
        error = some (record { code = code; message = text; retryable = retryable });
      }

  unfoldable pub apply_error : AgentRunState → AgentEvent → AgentRunState
  unfolding apply_cancelled report_error
  apply_error base event =
      let code = or event.code "internal" in
      if str_eq code "cancelled" then apply_cancelled base event else report_error base event code

  unfoldable pub apply_status : AgentRunState → AgentEvent → AgentRunState
  unfolding close_assistant
  apply_status base event = record base {
    items = elim event.stage [
      | some RunStage.tool_input ↦ close_assistant base.items
      | _ ↦ base.items
    ];
    activity = some (record { stage = or event.stage RunStage.thinking; tool = event.tool });
  }
