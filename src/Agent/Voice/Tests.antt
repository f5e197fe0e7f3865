-- ===== src/Agent/Voice/Tests.antt =====
-- A phrase is heard, then silence, then nothing more.
use inkstave.Prelude.{◌≡◌, refl, ◌⊎◌, true, false, some, [], ◌∷◌, ◌++◌}
use inkstave.Agent.Voice.{
  SessionState, interim, final, reported, timer_fired, run_session, start_session, silence,
}
use inkstave.Agent.Voice.Covers.{ends, Announces}
use inkstave.Agent.Voice.Ended.{session_calls-announced}
use inkstave.Agent.Voice.Deadline.{Closes, session-Closes}

abbrev listening : SessionState
listening = record { live = true; stopping = false; heard = false; timer = some silence }

starts : start_session true [] false ≡ (some listening, [])
unfolding start_session
starts = refl

session_calls-announced_example :
    let all =
      []
      ++ (run_session listening
          (reported (final (97 ∷ [])) ∷ timer_fired [] ∷ timer_fired [] ∷ [])).1 in
    (ends all ≡ 0) ⊎ Announces false all
session_calls-announced_example =
    session_calls-announced [] (reported (final (97 ∷ [])) ∷ timer_fired [] ∷ timer_fired [] ∷ [])
      listening [] starts

session-Closes_example :
    Closes
      ((reported (final (97 ∷ [])) ∷ [])
        ++ timer_fired [] ∷ ((reported (interim []) ∷ []) ++ timer_fired [] ∷ []))
      listening
      []
session-Closes_example =
    session-Closes [] [] [] (reported (final (97 ∷ [])) ∷ []) (reported (interim []) ∷ []) listening
      [] starts
