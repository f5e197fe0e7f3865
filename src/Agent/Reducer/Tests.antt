-- ===== src/Agent/Reducer/Tests.antt =====
-- The reducer at a few events.
use inkstave.Prelude.{ℕ, ◌≡◌, refl, true, none, some, [], ◌∷◌, Text, arith}
use inkstave.Agent.Types.{ChatRole, MessageStatus, message, AgentRunState, AgentEvent}
use inkstave.Agent.Handlers.{initial_run_state, Env, numbered, open_assistant}
use inkstave.Agent.Reducer.{apply_event}
use inkstave.Agent.Reducer.Seen.{apply_events, apply_event_known, apply_event-redelivered}
use inkstave.Agent.Reducer.Sound.{IsSound, apply_events-IsSound}
use inkstave.Agent.Reducer.Streaming.{apply_events-tokens}
use inkstave.Agent.Reducer.Transcript.{Grows, apply_event-Grows}

abbrev env : Env
env = record { translate = λ key. []; show_number = λ n. "n" }

abbrev plain : AgentEvent
plain = record {
  type = "";
  seq = none;
  text = none;
  tool_call_id = none;
  name = none;
  arguments = none;
  ok = true;
  summary = none;
  diff_id = none;
  stage = none;
  tool = none;
  file_op_id = none;
  kind = none;
  entity_type = none;
  new_path = none;
  affected_paths = none;
  rationale = none;
  path = none;
  hunk_count = none;
  final_text = none;
  code = none;
  message = none;
}

abbrev token : ℕ → Text → AgentEvent
token n text = record plain { type = "token"; seq = some n; text = some text }

abbrev called : AgentEvent
called = record plain { type = "tool_call"; seq = some 2; name = some "search" }

abbrev done : AgentEvent
done = record plain { type = "done"; seq = some 3 }

abbrev start : AgentRunState
start = initial_run_state none

abbrev seen_state : AgentRunState
seen_state = record start { seen_seqs = 0 ∷ 1 ∷ [] }

apply_event_known_example : apply_event env seen_state (token 1 (97 ∷ [])) ≡ seen_state
apply_event_known_example = apply_event_known env seen_state (token 1 (97 ∷ [])) refl

apply_event-redelivered_example :
    apply_event env
      (apply_events env (apply_event env start (token 0 (97 ∷ []))) (called ∷ done ∷ []))
      (token 0 (97 ∷ []))
    ≡ apply_events env (apply_event env start (token 0 (97 ∷ []))) (called ∷ done ∷ [])
apply_event-redelivered_example =
    apply_event-redelivered env start (token 0 (97 ∷ [])) (called ∷ done ∷ []) 0 refl

apply_events-IsSound_example :
    IsSound env
      (apply_events env start (token 0 (97 ∷ []) ∷ token 1 (98 ∷ []) ∷ called ∷ done ∷ []))
apply_events-IsSound_example =
    apply_events-IsSound env start (token 0 (97 ∷ []) ∷ token 1 (98 ∷ []) ∷ called ∷ done ∷ [])
      (record { one = omega arith; over = λ over. refl })

apply_events-tokens_example :
    (apply_events env start (token 0 (97 ∷ []) ∷ token 1 (98 ∷ []) ∷ [])).items
    ≡ message (numbered env "a-" (some 0)) ChatRole.assistant (97 ∷ 98 ∷ []) MessageStatus.streaming
      ∷ []
unfolding open_assistant
apply_events-tokens_example =
    apply_events-tokens env start (token 0 (97 ∷ [])) (token 1 (98 ∷ []) ∷ []) refl
      (refl, refl, (refl, refl, tt))

apply_event-Grows_example : Grows start.items (apply_event env start called).items
apply_event-Grows_example = apply_event-Grows env start called
