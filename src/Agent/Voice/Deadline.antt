-- ===== src/Agent/Voice/Deadline.antt =====
-- session.ts: the timers of a session.
use inkstave.Prelude.{
  ◌≡◌, ◌⊎◌, inl, inr, true, false, ◌||◌, some, List, [], ◌∷◌, ◌++◌, any, if◌then◌else◌, subst,
  Bool-cases, arith,
}
use inkstave.Agent.Voice.{
  SessionState, Report, SessionCall, on_end, SessionEvent, timer_fired, arm, on_reports, run_timer,
  session_step, run_session, fresh, start_session,
}
use inkstave.Agent.Voice.Covers.{
  ends, ends-append, is_abort, is_final, Covers, goes_on, dropped, over,
}
use inkstave.Agent.Voice.Ended.{
  run_session-IsRun, run_timer-IsRun, session-Covers, session_after, session_calls, started,
}
use inkstave.Agent.Voice.Timed.{
  IsTimed, run_timer-live, run_timer-Keeps, run_session-Keeps, run_session-append, start-IsTimed,
}

-- Once the timer has fired, a session that lives was told to stop.
run_timer-stops :
    (rs : List Report) (s : SessionState)
    → IsTimed s
    → ((run_timer rs s).0.live ≡ false) ⊎ ((run_timer rs s).0.stopping ≡ true)
run_timer-stops rs s timed = elim (Bool-cases s.live) [
  | inr off ↦ inl ((run_timer-IsRun rs s).1 off).1
  | inl live ↦ elim (run_timer-live rs s timed live) [
    | inl (_, off) ↦ inl off
    | inr (_, (k, _)) ↦ inr k
  ]
]

-- The deadline ends it.
run_timer-closes :
    (rs : List Report) (s : SessionState)
    → IsTimed s
    → (s.live ≡ false) ⊎ (s.stopping ≡ true)
    → (run_timer rs s).0.live ≡ false
run_timer-closes rs s timed (inl off) = ((run_timer-IsRun rs s).1 off).1
run_timer-closes rs s timed (inr k) = elim (Bool-cases s.live) [
  | inr off ↦ ((run_timer-IsRun rs s).1 off).1
  | inl live ↦ elim (run_timer-live rs s timed live) [
    | inl (_, off) ↦ off
    | inr (on, _) ↦ ground (arith, k, on)
  ]
]

later_stops :
    (s : SessionState) (events : List SessionEvent)
    → (s.live ≡ false) ⊎ (s.stopping ≡ true)
    → let s' = (run_session s events).0 in (s'.live ≡ false) ⊎ (s'.stopping ≡ true)
later_stops s events (inl off) = inl ((run_session-IsRun s events).1 off).1
later_stops s events (inr k) = inr ((run_session-Keeps s events).0 k)

run_session-fired_twice :
    (s : SessionState) (rs rs' : List Report) (more : List SessionEvent)
    → IsTimed s
    → (run_session s (timer_fired rs ∷ (more ++ timer_fired rs' ∷ []))).0.live ≡ false
unfolding run_session session_step
run_session-fired_twice s rs rs' more timed =
    let next = (run_timer rs s).0 in
    let later = (run_session next more).0 in
    rw (run_session-append next more (timer_fired rs' ∷ [])) (
      run_timer-closes rs' later ((run_session-Keeps next more).1 ((run_timer-Keeps rs s).1 timed))
        (later_stops next more (run_timer-stops rs s timed)))

ends-Covers :
    (s s' : SessionState) (calls : List SessionCall)
    → Covers s calls s'
    → s'.live ≡ false
    → ends calls ≡ (if any is_abort calls then 0 else 1)
ends-Covers s s' calls (goes_on on quiet hears kept) off = ground (arith, on, off)
ends-Covers s s' calls (dropped _ quiet gone) off = rw gone quiet
ends-Covers s s' calls (over _ (before, e, k) kept) off =
    rw kept
      (rw e (omega (arith, ends-append before (on_end (s.heard || any is_final before) ∷ []), k)))

-- The steps with the timer firing twice.
abbrev firing :
    List SessionEvent → List Report → List SessionEvent → List Report → List SessionEvent
firing events rs more rs' = events ++ timer_fired rs ∷ (more ++ timer_fired rs' ∷ [])

session_after-firing :
    (reports rs rs' : List Report) (events more : List SessionEvent)
    → (session_after reports (firing events rs more rs')).live ≡ false
session_after-firing reports rs rs' events more =
    let s = arm (on_reports reports fresh).0 in
    let s' = (run_session s events).0 in
    rw (run_session-append s events (timer_fired rs ∷ (more ++ timer_fired rs' ∷ []))) (
      run_session-fired_twice s' rs rs' more
        ((run_session-Keeps s events).1 (start-IsTimed reports)))

-- A session that is over, and what its calls say of the end.
abbrev pub Closes : List SessionEvent → SessionState → List SessionCall → Type 0
Closes events s calls =
    let (s', rest) = run_session s events in
    (s'.live ≡ false) × (ends (calls ++ rest) ≡ (if any is_abort (calls ++ rest) then 0 else 1))

-- Whatever happened to a started session before and whatever comes in between, after the timer has fired
-- twice it is over, and its end was announced exactly once, or never if it was aborted.
pub session-Closes :
    (reports rs rs' : List Report) (events more : List SessionEvent) (s : SessionState)
    (calls : List SessionCall)
    → start_session true reports false ≡ (some s, calls)
    → Closes (events ++ timer_fired rs ∷ (more ++ timer_fired rs' ∷ [])) s calls
session-Closes reports rs rs' events more s calls h =
    let (e, k) = started reports s calls h in
    let steps = firing events rs more rs' in
    let off = session_after-firing reports rs rs' events more in
    subst (λ t. Closes steps t calls) e
      (subst (Closes steps (arm (on_reports reports fresh).0)) k (
        off,
        ends-Covers fresh (session_after reports steps) (session_calls reports steps)
            (session-Covers reports steps) off,
      ))
