-- ===== src/Agent/Reducer.antt =====
-- reducer.ts: `applyEvent`, which hands an event that it has not seen to its handler.
pub mod Seen
pub mod Transcript
pub mod Open
pub mod Sound
pub mod Streaming
mod Tests
use Prim.Native.String
use mathlib.Core.Bool.{Bool, true, false, not}
use inkstave.Prelude.{
  ℕ, zero, suc, Option, none, some, List, [], ◌∷◌, ◌++◌, if◌then◌else◌, ltb, ◌==◌, if-elim, str_eq,
  length, any, String, Text, get_elem?, set,
}
use inkstave.Agent.Types.{
  ChatRole, MessageStatus, ToolStatus, FileOp, TranscriptItem, message, tool, diff_proposal,
  file_op, error, RunPhase, RunStage, RunError, Activity, AgentRunState, AgentEvent,
}
use inkstave.Agent.Handlers.{
  Env, or, apply_token, apply_status, apply_tool_call, apply_tool_result, apply_diff_proposed,
  apply_file_op_proposed, apply_done, apply_cancelled, report_error, apply_error,
}

-- `state.seenSeqs.includes(event.seq)`
abbrev pub seen : Option ℕ → List ℕ → Bool
seen none seqs = false
seen (some n) seqs = any (λ m. m == n) seqs

abbrev pub note_seq : Option ℕ → List ℕ → List ℕ
note_seq none seqs = seqs
note_seq (some n) seqs = seqs ++ n ∷ []

module _ (env : Env) where
  -- The switch on the type of the event.
  unfoldable pub dispatch : AgentRunState → AgentEvent → AgentRunState
  unfolding apply_token apply_status apply_tool_call apply_tool_result apply_diff_proposed
      apply_file_op_proposed apply_done apply_error
  dispatch base event =
      if str_eq event.type "token"
      then apply_token env base event
      else if str_eq event.type "status"
      then apply_status env base event
      else if str_eq event.type "tool_call"
      then apply_tool_call env base event
      else if str_eq event.type "tool_result"
      then apply_tool_result base event
      else if str_eq event.type "diff_proposed"
      then apply_diff_proposed env base event
      else if str_eq event.type "file_op_proposed"
      then apply_file_op_proposed env base event
      else if str_eq event.type "done"
      then apply_done env base event
      else if str_eq event.type "error"
      then apply_error env base event
      else base

  -- A property of all that the switch can lead to.
  pub dispatch-elim :
      (P : AgentRunState → Type 0) (base : AgentRunState) (event : AgentEvent)
      → P (apply_token env base event)
      → P (apply_status env base event)
      → P (apply_tool_call env base event)
      → P (apply_tool_result base event)
      → P (apply_diff_proposed env base event)
      → P (apply_file_op_proposed env base event)
      → P (apply_done env base event)
      → P (apply_cancelled env base event)
      → ((code : String) → P (report_error env base event code))
      → P base
      → P (dispatch base event)
  unfolding dispatch apply_error
  dispatch-elim P base event token status call result diff op done cancelled failed other =
      if-elim P (str_eq event.type "token") token (
        if-elim P (str_eq event.type "status") status (
          if-elim P (str_eq event.type "tool_call") call (
            if-elim P (str_eq event.type "tool_result") result (
              if-elim P (str_eq event.type "diff_proposed") diff (
                if-elim P (str_eq event.type "file_op_proposed") op (
                  if-elim P (str_eq event.type "done") done (
                    if-elim P (str_eq event.type "error")
                      (if-elim P (str_eq (or event.code "internal") "cancelled") cancelled
                        (failed (or event.code "internal")))
                      other)))))))

  unfoldable pub apply_event : AgentRunState → AgentEvent → AgentRunState
  unfolding dispatch
  apply_event state event =
      if seen event.seq state.seen_seqs
      then state
      else dispatch (record state { seen_seqs = note_seq event.seq state.seen_seqs }) event
