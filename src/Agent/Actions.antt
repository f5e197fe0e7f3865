-- ===== src/Agent/Actions.antt =====
-- useRunActions.ts and useRunStream.ts: what the hooks do to the state of a run when the user sends
-- a message or stops the run, and when the stream of its events breaks off.
mod Runs
mod Tests
use inkstave.Prelude.{
  ℕ, Bool, true, false, Option, none, some, List, [], ◌∷◌, ◌++◌, if◌then◌else◌, ◌==◌, ◌&&◌, ◌||◌,
  not, String, Text, str_eq, length, filter_by,
}
use inkstave.Agent.Types.{
  ChatRole, MessageStatus, TranscriptItem, message, RunPhase, AgentRunState, AgentEvent,
}
use inkstave.Agent.Handlers.{Env, id_of}
use inkstave.Agent.Reducer.{apply_event}

-- An event with only a type, a code and a message.
abbrev pub local_event : String → String → Text → AgentEvent
local_event kind code text = record {
  type = kind;
  seq = none;
  text = none;
  tool_call_id = none;
  name = none;
  arguments = none;
  ok = false;
  summary = none;
  diff_id = none;
  stage = none;
  tool = none;
  file_op_id = none;
  kind = none;
  entity_type = none;
  new_path = none;
  affected_paths = none;
  rationale = none;
  path = none;
  hunk_count = none;
  final_text = none;
  code = some code;
  message = some text;
}

-- The phases in which a message is not sent, and those in which a lost stream is an error.
abbrev pub is_sending : RunPhase → Bool
is_sending RunPhase.starting = true
is_sending RunPhase.streaming = true
is_sending _ = false

abbrev pub is_running : RunPhase → Bool
is_running RunPhase.starting = true
is_running RunPhase.streaming = true
is_running RunPhase.stopping = true
is_running _ = false

-- `send` after the trim: `none` when nothing is sent.
unfoldable pub begin_run : String → String → Text → ℕ → AgentRunState → Option AgentRunState
begin_run session user_id content now prev =
    let user_item : TranscriptItem = message user_id ChatRole.user content MessageStatus.complete in
    if (length content == 0) || is_sending prev.phase
    then none
    else some (record prev {
      session_id = some session;
      phase = RunPhase.starting;
      error = none;
      activity = none;
      started_at = some now;
      last_event_at = none;
      items = prev.items ++ user_item ∷ [];
    })

-- `send` when the server has started the run.
unfoldable pub run_started : String → AgentRunState → AgentRunState
run_started id prev = record prev { run_id = some id; phase = RunPhase.streaming }

-- `send` when the server has not: a text that it refuses leaves the transcript again.
unfoldable pub start_failed : Env → Bool → String → AgentEvent → AgentRunState → AgentRunState
unfolding apply_event
start_failed env refused user_id event prev =
    let kept =
      if refused
      then filter_by (λ item. not (str_eq (id_of item) user_id)) prev.items
      else prev.items in
    apply_event env (record prev { items = kept }) event

-- `stop` before it calls the server.
unfoldable pub stop : AgentRunState → AgentRunState
stop run = elim run.run_id [
  | none ↦ run
  | some run_id ↦ elim run.session_id [
    | none ↦ run
    | some session ↦ record run { phase = RunPhase.stopping }
  ]
]

-- A message of the stream, and the stream's `onerror`.
unfoldable pub receive : Env → ℕ → AgentEvent → AgentRunState → AgentRunState
receive env now event prev = record (apply_event env prev event) { last_event_at = some now }

unfoldable pub lose_stream : Env → AgentRunState → AgentRunState
lose_stream env prev =
    if is_running prev.phase
    then apply_event env prev
        (local_event "error" "transport" (env.translate "agent:error.messages.connectionLost"))
    else prev
