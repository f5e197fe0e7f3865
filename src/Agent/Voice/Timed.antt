-- ===== src/Agent/Voice/Timed.antt =====
-- session.ts: the timer of each phase of a session.
use inkstave.Prelude.{
  ◌≡◌, refl, sym, ap, ◌∙◌, ◌⊎◌, inl, inr, Bool, true, false, ◌&&◌, not, some, none, Option, List,
  [], ◌∷◌, ◌++◌, if◌then◌else◌, if-elim, subst, Bool-cases, arith,
}
use inkstave.Agent.Voice.{
  SessionState, Report, interim, final, ended, failed, SessionCall, on_end, stop_recognizer,
  SessionEvent, SessionTimer, reported, stop_pressed, timer_fired, aborted, finish, arm, on_report,
  on_reports, stop, set_deadline, abort, run_timer, fire, session_step, run_session, fresh, silence,
  stop_deadline,
}
use inkstave.Agent.Voice.Ended.{run_timer-IsRun}

-- The timer that runs before and after a stop.
abbrev due : Bool → SessionTimer
due true = stop_deadline
due false = silence

-- A live session has the timer of its phase.
abbrev pub IsTimed : SessionState → Type 0
IsTimed s = s.live ≡ true → s.timer ≡ some (due s.stopping)

-- A step keeps the timer right and never takes a stop back.
abbrev Keeps : SessionState → SessionState → Type 0
Keeps s s' = (s.stopping ≡ true → s'.stopping ≡ true) × (IsTimed s → IsTimed s')

Keeps-then : (s t u : SessionState) → Keeps s t → Keeps t u → Keeps s u
Keeps-then s t u (a, b) (c, d) = (λ k. c (a k), λ k. d (b k))

arm_timed :
    (s : SessionState) (b : Bool)
    → s.stopping ≡ b
    → Keeps s (if b then s else record s { timer = some silence })
arm_timed s true e = (λ k. k, λ t. t)
arm_timed s false e = (λ k. k, λ _ _. ap (λ b. some (due b)) (sym e))

arm-Keeps : (s : SessionState) → Keeps s (arm s)
unfolding arm
arm-Keeps s = arm_timed s s.stopping refl

finish-Keeps : (s : SessionState) → Keeps s (finish s).0
unfolding finish
finish-Keeps s =
    if-elim (λ (r : SessionState × List SessionCall). Keeps s r.0) s.live
      (λ k. k, λ _ live. ground (arith, live)) (λ k. k, λ t. t)

on_report-Keeps : (r : Report) (s : SessionState) → Keeps s (on_report r s).0
unfolding on_report
on_report-Keeps (interim text) s =
    if-elim (λ (r : SessionState × List SessionCall). Keeps s r.0) s.live (arm-Keeps s)
      (λ k. k, λ t. t)
on_report-Keeps (final text) s =
    if-elim (λ (r : SessionState × List SessionCall). Keeps s r.0) s.live
      (arm-Keeps (record s { heard = true })) (λ k. k, λ t. t)
on_report-Keeps ended s = finish-Keeps s
on_report-Keeps (failed code) s = (λ k. k, λ t. t)

on_reports-Keeps : (rs : List Report) (s : SessionState) → Keeps s (on_reports rs s).0
unfolding on_reports
on_reports-Keeps [] s = (λ k. k, λ t. t)
on_reports-Keeps (r ∷ rs) s =
    let next = (on_report r s).0 in
    Keeps-then s next (on_reports rs next).0 (on_report-Keeps r s) (on_reports-Keeps rs next)

-- A session that was told to stop waits for the deadline.
abbrev Stops : SessionState → Type 0
Stops s = (s.stopping ≡ true) × IsTimed s

deadline_set :
    (s : SessionState) (b : Bool)
    → s.live ≡ b
    → s.stopping ≡ true
    → Stops (if b then record s { timer = some stop_deadline } else s)
deadline_set s true e k = (k, λ _. ap (λ b. some (due b)) (sym k))
deadline_set s false e k = (k, λ live. ground (arith, e, live))

set_deadline-Stops : (s : SessionState) → s.stopping ≡ true → Stops (set_deadline s)
unfolding set_deadline
set_deadline-Stops s k = deadline_set s s.live refl k

stop-Keeps : (rs : List Report) (s : SessionState) → Keeps s (stop rs s).0
unfolding stop
stop-Keeps rs s =
    let stopped = record s { stopping = true; timer = none } in
    let (a, b) =
      set_deadline-Stops (on_reports rs stopped).0 ((on_reports-Keeps rs stopped).0 refl) in
    if-elim (λ (r : SessionState × List SessionCall). Keeps s r.0) (s.live && not s.stopping)
      (λ _. a, λ _. b) (λ k. k, λ t. t)

stop_taken :
    (s : SessionState) (r : SessionState × List SessionCall) (b c : Bool)
    → s.live ≡ b
    → s.stopping ≡ c
    → s.live ≡ true
    → s.stopping ≡ false
    → Stops r.0
    → Stops (if b && not c then r else (s, [])).0
stop_taken s r true true e k live on t = ground (arith, k, on)
stop_taken s r true false e k live on t = t
stop_taken s r false c e k live on t = ground (arith, e, live)

stop-Stops :
    (rs : List Report) (s : SessionState) → s.live ≡ true → s.stopping ≡ false → Stops (stop rs s).0
unfolding stop
stop-Stops rs s live on =
    let stopped = record s { stopping = true; timer = none } in
    let (s', calls) = on_reports rs stopped in
    stop_taken s (set_deadline s', stop_recognizer ∷ calls) s.live s.stopping refl refl live on
      (set_deadline-Stops s' ((on_reports-Keeps rs stopped).0 refl))

abort-Keeps : (rs : List Report) (s : SessionState) → Keeps s (abort rs s).0
unfolding abort
abort-Keeps rs s =
    let gone = record s { live = false; timer = none } in
    let (a, b) = on_reports-Keeps rs gone in
    if-elim (λ (r : SessionState × List SessionCall). Keeps s r.0) s.live
      (a, λ _. b (λ live. ground (arith, live))) (λ k. k, λ t. t)

finished :
    (s : SessionState) (b : Bool)
    → s.live ≡ b
    → let r : SessionState × List SessionCall =
        if b then (record s { live = false; timer = none }, on_end s.heard ∷ []) else (s, []) in
      r.0.live ≡ false
finished s true e = refl
finished s false e = e

finish-dead : (s : SessionState) → (finish s).0.live ≡ false
unfolding finish
finish-dead s = finished s s.live refl

-- What a live session with the right timer does when the timer fires.
pub run_timer-live :
    (rs : List Report) (s : SessionState)
    → IsTimed s
    → s.live ≡ true
    → (s.stopping ≡ true) × ((run_timer rs s).0.live ≡ false)
      ⊎ (s.stopping ≡ false) × Stops (run_timer rs s).0
unfolding run_timer fire
run_timer-live rs s timed live = elim (Bool-cases s.stopping) [
  | inl e ↦ inl (
    e,
    subst (λ t. (fire rs s t).0.live ≡ false) (sym (timed live ∙ ap (λ b. some (due b)) e))
        (finish-dead (record s { timer = none })),
  )
  | inr e ↦ inr (
    e,
    subst (λ t. Stops (fire rs s t).0) (sym (timed live ∙ ap (λ b. some (due b)) e))
        (stop-Stops rs (record s { timer = none }) live e),
  )
]

fire_stopping :
    (rs : List Report) (s : SessionState) (t : Option SessionTimer)
    → s.stopping ≡ true
    → (fire rs s t).0.stopping ≡ true
unfolding fire
fire_stopping rs s none k = k
fire_stopping rs s (some silence) k = (stop-Keeps rs (record s { timer = none })).0 k
fire_stopping rs s (some stop_deadline) k = (finish-Keeps (record s { timer = none })).0 k

pub run_timer-Keeps : (rs : List Report) (s : SessionState) → Keeps s (run_timer rs s).0
unfolding run_timer
run_timer-Keeps rs s = (
  fire_stopping rs s s.timer,
  λ timed. elim (Bool-cases s.live) [
    | inl live ↦ elim (run_timer-live rs s timed live) [
      | inl (_, off) ↦ λ on. ground (arith, off, on)
      | inr (_, (_, t)) ↦ t
    ]
    | inr off ↦ λ on. ground (arith, on, ((run_timer-IsRun rs s).1 off).1)
  ],
)

session_step-Keeps : (s : SessionState) (event : SessionEvent) → Keeps s (session_step s event).0
unfolding session_step
session_step-Keeps s (reported r) = on_report-Keeps r s
session_step-Keeps s (stop_pressed rs) = stop-Keeps rs s
session_step-Keeps s (timer_fired rs) = run_timer-Keeps rs s
session_step-Keeps s (aborted rs) = abort-Keeps rs s

pub run_session-Keeps :
    (s : SessionState) (events : List SessionEvent) → Keeps s (run_session s events).0
unfolding run_session
run_session-Keeps s [] = (λ k. k, λ t. t)
run_session-Keeps s (event ∷ events) =
    let next = (session_step s event).0 in
    Keeps-then s next (run_session next events).0 (session_step-Keeps s event)
      (run_session-Keeps next events)

pub run_session-append :
    (s : SessionState) (xs ys : List SessionEvent)
    → (run_session s (xs ++ ys)).0 ≡ (run_session (run_session s xs).0 ys).0
unfolding run_session
run_session-append s [] ys = refl
run_session-append s (x ∷ xs) ys = run_session-append (session_step s x).0 xs ys

arm-stopping : (s : SessionState) → (arm s).stopping ≡ s.stopping
unfolding arm
arm-stopping s = if-elim (λ (t : SessionState). t.stopping ≡ s.stopping) s.stopping refl refl

on_report-stopping : (r : Report) (s : SessionState) → (on_report r s).0.stopping ≡ s.stopping
unfolding on_report finish
on_report-stopping (interim text) s =
    if-elim (λ (r : SessionState × List SessionCall). r.0.stopping ≡ s.stopping) s.live
      (arm-stopping s) refl
on_report-stopping (final text) s =
    if-elim (λ (r : SessionState × List SessionCall). r.0.stopping ≡ s.stopping) s.live
      (arm-stopping (record s { heard = true })) refl
on_report-stopping ended s =
    if-elim (λ (r : SessionState × List SessionCall). r.0.stopping ≡ s.stopping) s.live refl refl
on_report-stopping (failed code) s = refl

on_reports-stopping :
    (rs : List Report) (s : SessionState) → (on_reports rs s).0.stopping ≡ s.stopping
unfolding on_reports
on_reports-stopping [] s = refl
on_reports-stopping (r ∷ rs) s = on_reports-stopping rs (on_report r s).0 ∙ on_report-stopping r s

arm_unstopped :
    (s : SessionState) (b : Bool)
    → s.stopping ≡ b
    → s.stopping ≡ false
    → IsTimed (if b then s else record s { timer = some silence })
arm_unstopped s true e k = ground (arith, e, k)
arm_unstopped s false e k = λ _. ap (λ b. some (due b)) (sym k)

arm-IsTimed : (s : SessionState) → s.stopping ≡ false → IsTimed (arm s)
unfolding arm
arm-IsTimed s k = arm_unstopped s s.stopping refl k

-- A started session has its timer.
pub start-IsTimed : (reports : List Report) → IsTimed (arm (on_reports reports fresh).0)
start-IsTimed reports =
    let s = (on_reports reports fresh).0 in arm-IsTimed s (on_reports-stopping reports fresh)
