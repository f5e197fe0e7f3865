-- ===== src/Agent/Reducer/Transcript.antt =====
-- reducer.ts, `applyEvent`: the items of the transcript before and after an event.
use mathlib.Core.List.{map-append}
use inkstave.Prelude.{
  ℕ, zero, suc, ◌≤◌, ◌≡◌, refl, sym, ap, ◌∙◌, none, some, List, [], ◌∷◌, ◌++◌, map, ◌==◌, if-elim,
  length, Text, arith, Bool-cases, Option-cases, inl, inr, append-nil,
}
use inkstave.Agent.Types.{
  MessageStatus, TranscriptItem, message, tool, diff_proposal, file_op, error, RunStage,
  AgentRunState, AgentEvent,
}
use inkstave.Agent.Reducer.{dispatch, dispatch-elim, seen, note_seq, apply_event}
use inkstave.Agent.Handlers.{
  Env, or, open_assistant, on_message, modify, token_items, settle_open, same_id, id_of,
  close_assistant, finish_tool, done_items, cancelled_items, apply_token, apply_status,
  apply_tool_call, apply_tool_result, apply_diff_proposed, apply_file_op_proposed, apply_done,
  apply_cancelled, report_error,
}

-- What an event may do to the transcript: items keep their place and their id, and at most one
-- comes after them.
pub record Grows (before after : List TranscriptItem) : Type 0 where
  pub new : List TranscriptItem
  pub few : length new ≤ 1
  pub ids : map id_of after ≡ map id_of before ++ map id_of new

keeps :
    {before after : List TranscriptItem} → map id_of after ≡ map id_of before → Grows before after
keeps {before = before} e = record {
  new = [];
  few = omega arith;
  ids = e ∙ sym (append-nil (map id_of before));
}

pushes :
    {before : List TranscriptItem} (after : List TranscriptItem) (item : TranscriptItem)
    → map id_of after ≡ map id_of before
    → Grows before (after ++ item ∷ [])
pushes {before = before} after item e = record {
  new = item ∷ [];
  few = omega arith;
  ids = map-append id_of after (item ∷ []) ∙ ap (λ ids. ids ++ id_of item ∷ []) e;
}

id_of-on_message :
    (f : Text → Text) (status : MessageStatus) (item : TranscriptItem)
    → id_of (on_message f status item) ≡ id_of item
id_of-on_message f status (message id role text old) = refl
id_of-on_message f status (tool id name args result tool_status error_text) = refl
id_of-on_message f status (diff_proposal id proposal_id diff_status files) = refl
id_of-on_message f status (file_op id op) = refl
id_of-on_message f status (error id code text retryable) = refl

ids-modify :
    (f : Text → Text) (status : MessageStatus) (items : List TranscriptItem) (idx : ℕ)
    → map id_of (modify (on_message f status) items idx) ≡ map id_of items
unfolding modify
ids-modify f status [] idx = refl
ids-modify f status (item ∷ items) zero =
    ap (λ id. id ∷ map id_of items) (id_of-on_message f status item)
ids-modify f status (item ∷ items) (suc idx) =
    ap (λ ids. id_of item ∷ ids) (ids-modify f status items idx)

ids-settle_open :
    (status : MessageStatus) (items : List TranscriptItem)
    → map id_of (settle_open status items) ≡ map id_of items
unfolding settle_open
ids-settle_open status items = elim (Option-cases (open_assistant items)) [
  | inl e ↦ rw (e, map)
  | inr (idx, e) ↦ rw (e, map) (ids-modify (λ text. text) status items idx)
]

ids-finish_tool :
    (items : List TranscriptItem) (event : AgentEvent)
    → map id_of (finish_tool items event) ≡ map id_of items
unfolding finish_tool
ids-finish_tool [] event = refl
ids-finish_tool (tool id name args result status error_text ∷ items) event =
    elim (Bool-cases (same_id id event.tool_call_id)) [
      | inl e ↦ rw (e, map)
      | inr e ↦ rw (e, map) (ap (λ ids. id ∷ ids) (ids-finish_tool items event))
    ]
ids-finish_tool (message id role text status ∷ items) event =
    ap (λ ids. id ∷ ids) (ids-finish_tool items event)
ids-finish_tool (diff_proposal id proposal_id status files ∷ items) event =
    ap (λ ids. id ∷ ids) (ids-finish_tool items event)
ids-finish_tool (file_op id op ∷ items) event = ap (λ ids. id ∷ ids) (ids-finish_tool items event)
ids-finish_tool (error id code text retryable ∷ items) event =
    ap (λ ids. id ∷ ids) (ids-finish_tool items event)

module _ (env : Env) where
  Grows-token :
      (items : List TranscriptItem) (event : AgentEvent) → Grows items (token_items env items event)
  unfolding token_items
  Grows-token items event = elim (Option-cases (open_assistant items)) [
    | inl e ↦ rw (e, token_items) (pushes items _ refl)
    | inr (idx, e) ↦
        rw (e, token_items)
          (keeps (ids-modify (λ text. text ++ or event.text []) MessageStatus.streaming items idx))
  ]

  Grows-status :
      (base : AgentRunState) (event : AgentEvent)
      → Grows base.items (apply_status env base event).items
  unfolding apply_status close_assistant
  Grows-status base event =
      elim event.stage
        as (λ stage.
          Grows base.items (apply_status env base (record event { stage = stage })).items) [
            | some RunStage.tool_input ↦ keeps (ids-settle_open MessageStatus.complete base.items)
            | some RunStage.thinking ↦ keeps refl
            | some RunStage.writing ↦ keeps refl
            | some RunStage.tool ↦ keeps refl
            | none ↦ keeps refl
          ]

  Grows-done :
      (items : List TranscriptItem) (event : AgentEvent) → Grows items (done_items env items event)
  unfolding done_items
  Grows-done items event = elim (Option-cases (open_assistant items)) [
    | inl e ↦ elim (Bool-cases (length (or event.final_text []) == 0)) [
      | inl no_text ↦ rw (e, no_text, done_items) (keeps refl)
      | inr has_text ↦ rw (e, has_text, done_items) (pushes items _ refl)
    ]
    | inr (idx, e) ↦
        rw (e, done_items) (keeps (ids-modify (λ t. t) MessageStatus.complete items idx))
  ]

  Grows-cancelled :
      (items : List TranscriptItem) (event : AgentEvent)
      → Grows items (cancelled_items env items event)
  unfolding cancelled_items
  Grows-cancelled items event = elim (Option-cases (open_assistant items)) [
    | inl e ↦ rw (e, cancelled_items) (pushes items _ refl)
    | inr (idx, e) ↦
        rw (e, cancelled_items) (keeps (ids-modify (λ t. t) MessageStatus.cancelled items idx))
  ]

  Grows-dispatch :
      (base : AgentRunState) (event : AgentEvent) → Grows base.items (dispatch env base event).items
  unfolding apply_token apply_tool_call close_assistant apply_tool_result apply_diff_proposed
      apply_file_op_proposed apply_done apply_cancelled report_error
  Grows-dispatch base event =
      dispatch-elim env (λ state. Grows base.items state.items) base event
        (Grows-token base.items event) (Grows-status base event)
        (pushes (settle_open MessageStatus.complete base.items) _
          (ids-settle_open MessageStatus.complete base.items))
        (keeps (ids-finish_tool base.items event)) (pushes base.items _ refl)
        (pushes base.items _ refl) (Grows-done base.items event) (Grows-cancelled base.items event)
        (λ code. pushes base.items _ refl) (keeps refl)

  -- One event keeps every item of the transcript at its place, with its id, and adds at most one
  -- item, at the end.
  pub apply_event-Grows :
      (state : AgentRunState) (event : AgentEvent)
      → Grows state.items (apply_event env state event).items
  unfolding apply_event
  apply_event-Grows state event =
      if-elim (λ (after : AgentRunState). Grows state.items after.items)
        (seen event.seq state.seen_seqs) (keeps refl)
        (Grows-dispatch (record state { seen_seqs = note_seq event.seq state.seen_seqs }) event)
