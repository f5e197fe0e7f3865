-- ===== src/Agent/Reducer/Seen.antt =====
-- reducer.ts, `applyEvent`: the numbers of the events that were seen.
use inkstave.Prelude.{
  ℕ, ◌≡◌, refl, sym, subst, true, ◌||◌, Option, none, some, List, [], ◌∷◌, ◌++◌, if◌then◌else◌,
  ◌==◌, any, arith, Bool-cases, inl, inr,
}
use inkstave.Agent.Types.{AgentRunState, AgentEvent}
use inkstave.Agent.Reducer.{dispatch, dispatch-elim, seen, note_seq, apply_event}
use inkstave.Agent.Handlers.{
  Env, apply_token, apply_status, apply_tool_call, apply_tool_result, apply_diff_proposed,
  apply_file_op_proposed, apply_done, apply_cancelled, report_error,
}

any-append :
    (n : ℕ) (xs ys : List ℕ)
    → any (λ m. m == n) (xs ++ ys) ≡ (any (λ m. m == n) xs || any (λ m. m == n) ys)
any-append n [] ys = refl
any-append n (x ∷ xs) ys = ground (arith, any-append n xs ys)

seen-note_if :
    (seq : Option ℕ) (seqs : List ℕ) (n : ℕ)
    → seen (some n) seqs ≡ true
    → seen (some n) (if seen seq seqs then seqs else note_seq seq seqs) ≡ true
seen-note_if none seqs n h = h
seen-note_if (some m) seqs n h = ground (arith, any-append n seqs (m ∷ []))

seen-note_new :
    (seqs : List ℕ) (n : ℕ)
    → seen (some n) (if seen (some n) seqs then seqs else note_seq (some n) seqs) ≡ true
seen-note_new seqs n = ground (arith, any-append n seqs (n ∷ []))

module _ (env : Env) where
  pub dispatch-seen_seqs :
      (base : AgentRunState) (event : AgentEvent)
      → (dispatch env base event).seen_seqs ≡ base.seen_seqs
  unfolding apply_token apply_status apply_tool_call apply_tool_result apply_diff_proposed
      apply_file_op_proposed apply_done apply_cancelled report_error
  dispatch-seen_seqs base event =
      dispatch-elim env (λ s. s.seen_seqs ≡ base.seen_seqs) base event refl refl refl refl refl refl
        refl refl (λ code. refl) refl

  -- An event whose number was seen changes nothing.
  pub apply_event_known :
      (state : AgentRunState) (event : AgentEvent)
      → seen event.seq state.seen_seqs ≡ true
      → apply_event env state event ≡ state
  unfolding apply_event
  apply_event_known state event h = rw h

  pub seen_seqs-apply_event :
      (state : AgentRunState) (event : AgentEvent)
      → (apply_event env state event).seen_seqs ≡ (
          if seen event.seq state.seen_seqs
          then state.seen_seqs
          else note_seq event.seq state.seen_seqs)
  unfolding apply_event
  seen_seqs-apply_event state event = elim (Bool-cases (seen event.seq state.seen_seqs)) [
    | inl e ↦ rw e
    | inr e ↦ rw (
      e,
      dispatch-seen_seqs (record state { seen_seqs = note_seq event.seq state.seen_seqs }) event,
    )
  ]

  -- What was seen stays seen.
  seen-apply_event_old :
      (state : AgentRunState) (event : AgentEvent) (n : ℕ)
      → seen (some n) state.seen_seqs ≡ true
      → seen (some n) (apply_event env state event).seen_seqs ≡ true
  seen-apply_event_old state event n h =
      rw (seen_seqs-apply_event state event) (seen-note_if event.seq state.seen_seqs n h)

  seen-apply_event :
      (state : AgentRunState) (event : AgentEvent) (n : ℕ)
      → event.seq ≡ some n
      → seen (some n) (apply_event env state event).seen_seqs ≡ true
  seen-apply_event state event n h =
      rw (seen_seqs-apply_event state event, h) (seen-note_new state.seen_seqs n)

  unfoldable pub apply_events : AgentRunState → List AgentEvent → AgentRunState
  apply_events state [] = state
  apply_events state (event ∷ events) = apply_events (apply_event env state event) events

  seen-apply_events :
      (state : AgentRunState) (events : List AgentEvent) (n : ℕ)
      → seen (some n) state.seen_seqs ≡ true
      → seen (some n) (apply_events state events).seen_seqs ≡ true
  unfolding apply_events
  seen-apply_events state [] n h = h
  seen-apply_events state (event ∷ events) n h =
      seen-apply_events (apply_event env state event) events n
        (seen-apply_event_old state event n h)

  -- Delivering an event with a number again, at any later time, changes nothing.
  pub apply_event-redelivered :
      (state : AgentRunState) (event : AgentEvent) (later : List AgentEvent) (n : ℕ)
      → event.seq ≡ some n
      → apply_event env (apply_events (apply_event env state event) later) event
        ≡ apply_events (apply_event env state event) later
  apply_event-redelivered state event later n h =
      apply_event_known (apply_events (apply_event env state event) later) event (
        subst (λ seq. seen seq (apply_events (apply_event env state event) later).seen_seqs ≡ true)
          (sym h)
          (seen-apply_events (apply_event env state event) later n
            (seen-apply_event state event n h)))
