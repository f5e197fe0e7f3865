-- ===== src/Agent/Types.antt =====
-- types.ts: the transcript, the state of a run and its events. A value that is only passed on
-- (`unknown`) is a `String`; an absent field and `null` are `none`.
use inkstave.Prelude.{ℕ, Bool, Option, List, String, Text}

pub data ChatRole : Type 0 where
  user assistant : ChatRole

pub data MessageStatus : Type 0 where
  streaming complete cancelled failed : MessageStatus

pub data ToolStatus : Type 0 where
  running ok failed : ToolStatus

pub record FileOp : Type 0 where
  pub op_id : String
  pub op_kind : String
  pub entity_type : String
  pub path : String
  pub new_path : Option String
  pub affected_paths : List String
  pub status : String
  pub rationale : Option String

pub data TranscriptItem : Type 0 where
  message : (id : String) (role : ChatRole) (text : Text) (status : MessageStatus) → TranscriptItem
  tool :
      (id name : String) (args result : Option String) (status : ToolStatus)
      (error_text : Option String)
      → TranscriptItem
  diff_proposal : (id proposal_id status : String) (files : List (String × ℕ)) → TranscriptItem
  file_op : (id : String) (op : FileOp) → TranscriptItem
  error : (id code : String) (text : Text) (retryable : Bool) → TranscriptItem

pub data RunPhase : Type 0 where
  idle starting streaming stopping done failed cancelled : RunPhase

pub data RunStage : Type 0 where
  thinking writing tool_input tool : RunStage

pub record RunError : Type 0 where
  pub code : String
  pub message : Text
  pub retryable : Bool

pub record Activity : Type 0 where
  pub stage : RunStage
  pub tool : Option String

pub record AgentRunState : Type 0 where
  pub session_id : Option String
  pub run_id : Option String
  pub phase : RunPhase
  pub items : List TranscriptItem
  pub error : Option RunError
  pub seen_seqs : List ℕ
  pub activity : Option Activity
  pub started_at : Option ℕ
  pub last_event_at : Option ℕ

-- The fields that the reducer reads; `hunk_count` is `stats?.hunk_count`.
pub record AgentEvent : Type 0 where
  pub type : String
  pub seq : Option ℕ
  pub text : Option Text
  pub tool_call_id : Option String
  pub name : Option String
  pub arguments : Option String
  pub ok : Bool
  pub summary : Option String
  pub diff_id : Option String
  pub stage : Option RunStage
  pub tool : Option String
  pub file_op_id : Option String
  pub kind : Option String
  pub entity_type : Option String
  pub new_path : Option String
  pub affected_paths : Option (List String)
  pub rationale : Option String
  pub path : Option String
  pub hunk_count : Option ℕ
  pub final_text : Option Text
  pub code : Option String
  pub message : Option Text
