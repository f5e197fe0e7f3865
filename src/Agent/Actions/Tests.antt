-- ===== src/Agent/Actions/Tests.antt =====
-- A second message in a session, and a stream that breaks off.
use inkstave.Prelude.{◌≡◌, refl, some, [], ◌∷◌}
use inkstave.Agent.Types.{ChatRole, MessageStatus, message, RunPhase, AgentRunState}
use inkstave.Agent.Handlers.{initial_run_state, Env}
use inkstave.Agent.Reducer.{apply_event}
use inkstave.Agent.Actions.{local_event, begin_run, run_started}
use inkstave.Agent.Actions.Runs.{begin_run-drops}

abbrev env : Env
env = record { translate = λ key. []; show_number = λ n. "n" }

-- The first run of the session used the number 0.
abbrev first_done : AgentRunState
first_done = record (initial_run_state (some "s")) { phase = RunPhase.done; seen_seqs = 0 ∷ [] }

abbrev begun : AgentRunState
begun = record first_done {
  session_id = some "s";
  phase = RunPhase.starting;
  started_at = some 7;
  items = message "u" ChatRole.user (97 ∷ []) MessageStatus.complete ∷ [];
}

begins : begin_run "s" "u" (97 ∷ []) 7 first_done ≡ some begun
unfolding begin_run
begins = refl

begin_run-drops_example :
    apply_event env (run_started "r" begun) (record (local_event "token" "" []) { seq = some 0 })
    ≡ run_started "r" begun
begin_run-drops_example =
    begin_run-drops env "s" "u" "r" (97 ∷ []) 7 first_done begun
      (record (local_event "token" "" []) { seq = some 0 }) begins refl
