-- ===== src/Agent/Voice.antt =====
-- frontend/src/modules/agent/voice/session.ts: one listening session. The variables of the closure are
-- the state, the timer with what it will run; a step is a report of the recognizer, a press, the timer
-- or an abort, and yields the calls that the session makes. What the recognizer reports while a call of
-- it runs is an argument of the step.
pub mod Covers
pub mod Ended
pub mod Timed
pub mod Deadline
mod Tests
use inkstave.Prelude.{
  ℕ, Bool, true, false, Option, none, some, List, [], ◌∷◌, ◌++◌, Text, if◌then◌else◌, not, ◌&&◌,
}

pub data SessionTimer : Type 0 where
  silence stop_deadline : SessionTimer

-- `SILENCE_MS` and `STOP_DEADLINE_MS`.
abbrev pub delay_ms : SessionTimer → ℕ
delay_ms silence = 2000
delay_ms stop_deadline = 1500

pub record SessionState : Type 0 where
  pub live : Bool
  pub stopping : Bool
  pub heard : Bool
  pub timer : Option SessionTimer

-- What the recognizer reports.
pub data Report : Type 0 where
  interim final : (text : Text) → Report
  ended : Report
  failed : (code : Text) → Report

-- The calls that the session makes, of its callbacks and of the recognizer.
pub data SessionCall : Type 0 where
  on_interim on_final on_error : (text : Text) → SessionCall
  on_end : (heard : Bool) → SessionCall
  stop_recognizer abort_recognizer : SessionCall

pub data SessionEvent : Type 0 where
  reported : (report : Report) → SessionEvent
  stop_pressed timer_fired aborted : (reports : List Report) → SessionEvent

unfoldable pub finish : SessionState → SessionState × List SessionCall
finish s =
    if s.live then (record s { live = false; timer = none }, on_end s.heard ∷ []) else (s, [])

unfoldable pub arm : SessionState → SessionState
arm s = if s.stopping then s else record s { timer = some silence }

-- The callbacks that the recognizer is given.
unfoldable pub on_report : Report → SessionState → SessionState × List SessionCall
unfolding finish
on_report (interim text) s = if s.live then (arm s, on_interim text ∷ []) else (s, [])
on_report (final text) s =
    if s.live then (arm (record s { heard = true }), on_final text ∷ []) else (s, [])
on_report ended s = finish s
on_report (failed code) s = (s, if s.live then on_error code ∷ [] else [])

unfoldable pub on_reports : List Report → SessionState → SessionState × List SessionCall
unfolding on_report
on_reports [] s = (s, [])
on_reports (report ∷ reports) s =
    let (s', calls) = on_report report s in
    let (s'', rest) = on_reports reports s' in (s'', calls ++ rest)

-- What `stop` does after the recognizer was told to stop.
unfoldable pub set_deadline : SessionState → SessionState
set_deadline s = if s.live then record s { timer = some stop_deadline } else s

unfoldable pub stop : List Report → SessionState → SessionState × List SessionCall
unfolding on_reports set_deadline
stop reports s =
    if s.live && not s.stopping
    then (let (s', calls) = on_reports reports (record s { stopping = true; timer = none }) in
        (set_deadline s', stop_recognizer ∷ calls))
    else (s, [])

unfoldable pub abort : List Report → SessionState → SessionState × List SessionCall
unfolding on_reports
abort reports s =
    if s.live
    then (let (s', calls) = on_reports reports (record s { live = false; timer = none }) in
        (s', abort_recognizer ∷ calls))
    else (s, [])

-- What the timer runs.
unfoldable pub fire :
    List Report → SessionState → Option SessionTimer → SessionState × List SessionCall
unfolding stop finish
fire reports s none = (s, [])
fire reports s (some silence) = stop reports (record s { timer = none })
fire reports s (some stop_deadline) = finish (record s { timer = none })

unfoldable pub run_timer : List Report → SessionState → SessionState × List SessionCall
unfolding fire
run_timer reports s = fire reports s s.timer

unfoldable pub session_step : SessionState → SessionEvent → SessionState × List SessionCall
unfolding on_report stop abort run_timer
session_step s (reported report) = on_report report s
session_step s (stop_pressed reports) = stop reports s
session_step s (timer_fired reports) = run_timer reports s
session_step s (aborted reports) = abort reports s

unfoldable pub run_session : SessionState → List SessionEvent → SessionState × List SessionCall
unfolding session_step
run_session s [] = (s, [])
run_session s (event ∷ events) =
    let (s', calls) = session_step s event in
    let (s'', rest) = run_session s' events in (s'', calls ++ rest)

-- The variables before the recognizer is created.
abbrev pub fresh : SessionState
fresh = record { live = true; stopping = false; heard = false; timer = none }

-- `startSession`: whether the browser has a recognizer, what it reports while it starts, and whether the
-- start throws. No session is `none`.
unfoldable pub start_session : Bool → List Report → Bool → Option SessionState × List SessionCall
unfolding on_reports arm
start_session available reports throws =
    if available
    then (let (s, calls) = on_reports reports fresh in
        (if throws then none else some (arm s), calls))
    else (none, [])
