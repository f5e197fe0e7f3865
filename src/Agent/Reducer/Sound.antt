-- ===== src/Agent/Reducer/Sound.antt =====
-- reducer.ts, `applyEvent`: the open messages of a run after any sequence of events.
use inkstave.Prelude.{
  ◌≤◌, ◌≡◌, refl, ◌∙◌, Bool, true, false, none, some, List, [], ◌∷◌, ◌++◌, ◌==◌, if-elim, length,
  String, arith, Bool-cases, Option-cases, inl, inr,
}
use inkstave.Agent.Types.{
  MessageStatus, FileOp, TranscriptItem, diff_proposal, file_op, RunPhase, RunStage, AgentRunState,
  AgentEvent,
}
use inkstave.Agent.Reducer.{dispatch, dispatch-elim, seen, note_seq, apply_event}
use inkstave.Agent.Handlers.{
  Env, or, numbered, is_open, open_assistant, on_message, token_items, close_assistant, done_items,
  cancelled_items, apply_token, apply_status, apply_tool_call, apply_tool_result,
  apply_diff_proposed, apply_file_op_proposed, apply_done, apply_cancelled, report_error,
}
use inkstave.Agent.Reducer.Open.{
  open_count, open_count-append, open_count-none, open_count-pos, open_count-modify,
  open_count-settled, open_count-settle_open, open_count-finish_tool, open_count-push,
  on_message-open,
}
use inkstave.Agent.Reducer.Seen.{apply_events}

module _ (env : Env) where
  open_count-token :
      (items : List TranscriptItem) (event : AgentEvent)
      → open_count items ≤ 1
      → open_count (token_items env items event) ≡ 1
  unfolding token_items
  open_count-token items event one = elim (Option-cases (open_assistant items)) [
    | inl e ↦ rw (e, open_count, open_count-append) (omega (arith, open_count-none items e))
    | inr (idx, e) ↦
        rw (e, open_count)
          (omega (
            arith,
            one,
            open_count-modify
                (on_message (λ text. text ++ or event.text []) MessageStatus.streaming) true
                (on_message-open (λ text. text ++ or event.text [])) items idx e,
            open_count-pos items idx e,
          ))
  ]

  pub open_count-done :
      (base : AgentRunState) (event : AgentEvent)
      → open_count base.items ≤ 1
      → open_count (apply_done env base event).items ≡ 0
  unfolding apply_done done_items
  open_count-done base event one = elim (Option-cases (open_assistant base.items)) [
    | inl e ↦ elim (Bool-cases (length (or event.final_text []) == 0)) [
      | inl no_text ↦ rw (e, no_text, open_count) (open_count-none base.items e)
      | inr has_text ↦
          rw (e, has_text, open_count, open_count-append)
            (omega (arith, open_count-none base.items e))
    ]
    | inr (idx, e) ↦
        rw (e, open_count)
          (open_count-settled (λ t. t) MessageStatus.complete base.items idx refl one e)
  ]

  pub open_count-cancelled :
      (base : AgentRunState) (event : AgentEvent)
      → open_count base.items ≤ 1
      → open_count (apply_cancelled env base event).items ≡ 0
  unfolding apply_cancelled cancelled_items
  open_count-cancelled base event one = elim (Option-cases (open_assistant base.items)) [
    | inl e ↦ rw (e, open_count, open_count-append) (omega (arith, open_count-none base.items e))
    | inr (idx, e) ↦
        rw (e, open_count)
          (open_count-settled (λ t. t) MessageStatus.cancelled base.items idx refl one e)
  ]

  -- A run that ended well.
  abbrev is_over : RunPhase → Bool
  is_over RunPhase.done = true
  is_over RunPhase.cancelled = true
  is_over _ = false

  -- At most one message is being written, and none once the run is done or cancelled.
  pub record IsSound (state : AgentRunState) : Type 0 where
    pub one : open_count state.items ≤ 1
    pub over : is_over state.phase ≡ true → open_count state.items ≡ 0

  -- The handlers, one by one.
  apply_token-IsSound :
      (base : AgentRunState) (event : AgentEvent)
      → IsSound base
      → IsSound (apply_token env base event)
  unfolding apply_token
  apply_token-IsSound base event sound = record {
    one = omega (arith, open_count-token base.items event sound.one);
    over = λ over. ground (arith, over);
  }

  apply_status-IsSound :
      (base : AgentRunState) (event : AgentEvent)
      → IsSound base
      → IsSound (apply_status env base event)
  unfolding apply_status close_assistant
  apply_status-IsSound base event sound =
      let settled = open_count-settle_open MessageStatus.complete base.items refl sound.one in
      elim event.stage
        as (λ stage. IsSound (apply_status env base (record event { stage = stage }))) [
          | some RunStage.tool_input ↦ record {
            one = omega (arith, settled);
            over = λ over. settled;
          }
          | some RunStage.thinking ↦ record { one = sound.one; over = sound.over }
          | some RunStage.writing ↦ record { one = sound.one; over = sound.over }
          | some RunStage.tool ↦ record { one = sound.one; over = sound.over }
          | none ↦ record { one = sound.one; over = sound.over }
        ]

  apply_tool_call-IsSound :
      (base : AgentRunState) (event : AgentEvent)
      → IsSound base
      → IsSound (apply_tool_call env base event)
  unfolding apply_tool_call close_assistant
  apply_tool_call-IsSound base event sound =
      let settled = open_count-settle_open MessageStatus.complete base.items refl sound.one in
      record {
        one = rw open_count-push (omega (arith, settled));
        over = λ over. ground (arith, over);
      }

  apply_tool_result-IsSound :
      (base : AgentRunState) (event : AgentEvent)
      → IsSound base
      → IsSound (apply_tool_result base event)
  unfolding apply_tool_result
  apply_tool_result-IsSound base event sound = record {
    one = omega (arith, sound.one, open_count-finish_tool base.items event);
    over = λ over. open_count-finish_tool base.items event ∙ sound.over over;
  }

  -- A closed item at the end.
  push-IsSound :
      (base : AgentRunState) (item : TranscriptItem)
      → is_open item ≡ false
      → IsSound base
      → IsSound (record base { items = base.items ++ item ∷ [] })
  push-IsSound base item closed sound =
      let same : open_count (base.items ++ item ∷ []) ≡ open_count base.items =
        open_count-push base.items item ∙ rw closed (omega arith) in
      record { one = omega (arith, sound.one, same); over = λ over. same ∙ sound.over over }

  push_file_op-IsSound :
      (base : AgentRunState) (id : String) (op : FileOp)
      → IsSound base
      → IsSound (record base { items = base.items ++ file_op id op ∷ [] })
  push_file_op-IsSound base id op sound = push-IsSound base (file_op id op) refl sound

  dispatch-IsSound :
      (base : AgentRunState) (event : AgentEvent) → IsSound base → IsSound (dispatch env base event)
  unfolding apply_diff_proposed apply_file_op_proposed apply_done apply_cancelled report_error
  dispatch-IsSound base event sound =
      let done = open_count-done base event sound.one in
      let cancelled = open_count-cancelled base event sound.one in
      dispatch-elim env IsSound base event (apply_token-IsSound base event sound)
        (apply_status-IsSound base event sound) (apply_tool_call-IsSound base event sound)
        (apply_tool_result-IsSound base event sound)
        (push-IsSound base
          (diff_proposal (or event.diff_id (numbered env "d-" event.seq)) (or event.diff_id "")
            "proposed" ((or event.path "", or event.hunk_count 0) ∷ []))
          refl sound)
        (push_file_op-IsSound base _ _ sound)
        (record { one = omega (arith, done); over = λ over. done })
        (record { one = omega (arith, cancelled); over = λ over. cancelled })
        (λ code. record {
          one = rw open_count-push (omega (arith, sound.one));
          over = λ over. ground (arith, over);
        })
        sound

  pub apply_event-IsSound :
      (state : AgentRunState) (event : AgentEvent)
      → IsSound state
      → IsSound (apply_event env state event)
  unfolding apply_event
  apply_event-IsSound state event sound = if-elim IsSound (seen event.seq state.seen_seqs) sound (
      dispatch-IsSound (record state { seen_seqs = note_seq event.seq state.seen_seqs }) event
        (record { one = sound.one; over = sound.over }))

  pub apply_events-IsSound :
      (state : AgentRunState) (events : List AgentEvent)
      → IsSound state
      → IsSound (apply_events env state events)
  unfolding apply_events
  apply_events-IsSound state [] sound = sound
  apply_events-IsSound state (event ∷ events) sound =
      apply_events-IsSound (apply_event env state event) events
        (apply_event-IsSound state event sound)
