-- ===== src/Agent/Actions/Runs.antt =====
-- useRunActions.ts, `send`, and useRunStream.ts, `onerror`: a run after another one, and a run whose
-- stream breaks off.
use inkstave.Prelude.{ℕ, ◌≡◌, subst, true, false, some, String, Text, arith, Bool-cases, inl, inr}
use inkstave.Agent.Types.{AgentRunState, AgentEvent}
use inkstave.Agent.Handlers.{Env, apply_error, report_error}
use inkstave.Agent.Reducer.{seen, apply_event, dispatch}
use inkstave.Agent.Reducer.Seen.{apply_event_known}
use inkstave.Agent.Actions.{is_running, begin_run, run_started, lose_stream}

begin_run-seen_seqs :
    (session user_id : String) (content : Text) (now : ℕ) (prev begun : AgentRunState)
    → begin_run session user_id content now prev ≡ some begun
    → prev.seen_seqs ≡ begun.seen_seqs
unfolding begin_run
begin_run-seen_seqs session user_id content now prev begun h = ground (arith, h)

-- A second run in the same session keeps the numbers of the first, so an event of the new run
-- whose number the first run has used is not applied.
pub begin_run-drops :
    (env : Env) (session user_id run_id : String) (content : Text) (now : ℕ)
    (prev begun : AgentRunState) (event : AgentEvent)
    → begin_run session user_id content now prev ≡ some begun
    → seen event.seq prev.seen_seqs ≡ true
    → apply_event env (run_started run_id begun) event ≡ run_started run_id begun
unfolding run_started
begin_run-drops env session user_id run_id content now prev begun event h used =
    apply_event_known env (run_started run_id begun) event (
      subst (λ seqs. seen event.seq seqs ≡ true)
        (begin_run-seen_seqs session user_id content now prev begun h) used)

-- Once the stream is lost the run is not running any more.
pub lose_stream-phase :
    (env : Env) (prev : AgentRunState) → is_running (lose_stream env prev).phase ≡ false
unfolding lose_stream apply_event dispatch apply_error report_error
lose_stream-phase env prev = elim (Bool-cases (is_running prev.phase)) [
  | inl e ↦ rw e
  | inr e ↦ rw e e
]
