-- ===== src/Agent/Voice/Ended.antt =====
-- session.ts: the end of a session.
use inkstave.Prelude.{
  ◌≡◌, refl, sym, ap, ◌∙◌, ◌⊎◌, inl, inr, Bool, true, false, ◌||◌, ◌&&◌, not, some, none, Text,
  Option, if-elim, subst, List, [], ◌∷◌, ◌++◌, any, if◌then◌else◌, arith,
}
use inkstave.Agent.Voice.{
  SessionState, Report, interim, final, ended, failed, SessionCall, on_interim, on_final, on_error,
  on_end, stop_recognizer, abort_recognizer, SessionEvent, reported, stop_pressed, timer_fired,
  aborted, finish, arm, on_report, on_reports, stop, set_deadline, abort, run_timer, fire,
  session_step, SessionTimer, run_session, fresh, start_session, silence, stop_deadline,
}
use inkstave.Agent.Voice.Covers.{
  is_final, is_abort, ends, Announces, Covers, IsRun, Covers-after, IsRun-then, arm-live, arm-heard,
  goes_on, dropped, over,
}

or_false : (b : Bool) → (b || false) ≡ b
or_false true = refl
or_false false = refl

still :
    (s s' : SessionState) (calls : List SessionCall)
    → s'.live ≡ s.live
    → s'.heard ≡ (s.heard || any is_final calls)
    → ends calls ≡ 0
    → any is_abort calls ≡ false
    → (s.live ≡ false → calls ≡ [])
    → IsRun s calls s'
still s s' calls l h quiet kept none_dead =
    (λ live. goes_on (l ∙ live) quiet h kept, λ dead. (none_dead dead, l ∙ dead))

-- A step that only a live session takes.
when_live :
    (s : SessionState) (r : SessionState × List SessionCall) (b : Bool)
    → s.live ≡ b
    → (s.live ≡ true → Covers s r.1 r.0)
    → IsRun s (if b then r else (s, [])).1 (if b then r else (s, [])).0
when_live s r true e c = (c, λ dead. ground (arith, e, dead))
when_live s r false e c = (λ live. ground (arith, e, live), λ dead. (refl, dead))

or_true : (b : Bool) → true ≡ (b || true)
or_true true = refl
or_true false = refl

error-IsRun :
    (s : SessionState) (code : Text) (b : Bool)
    → s.live ≡ b
    → IsRun s (if b then on_error code ∷ [] else []) s
error-IsRun s code true e =
    (λ live. goes_on live refl (sym (or_false s.heard)) refl, λ dead. ground (arith, e, dead))
error-IsRun s code false e = (λ live. ground (arith, e, live), λ dead. (refl, dead))

finish-IsRun : (s : SessionState) → IsRun s (finish s).1 (finish s).0
unfolding finish
finish-IsRun s =
    when_live s (record s { live = false; timer = none }, on_end s.heard ∷ []) s.live refl
      (λ _. over refl ([], ap (λ h. on_end h ∷ []) (sym (or_false s.heard)), refl) refl)

on_report-IsRun : (r : Report) (s : SessionState) → IsRun s (on_report r s).1 (on_report r s).0
unfolding on_report
on_report-IsRun (interim text) s =
    when_live s (arm s, on_interim text ∷ []) s.live refl
      (λ live. goes_on (arm-live s ∙ live) refl (arm-heard s ∙ sym (or_false s.heard)) refl)
on_report-IsRun (final text) s =
    when_live s (arm (record s { heard = true }), on_final text ∷ []) s.live refl
      (λ live.
        goes_on (arm-live (record s { heard = true }) ∙ live) refl
          (arm-heard (record s { heard = true }) ∙ or_true s.heard) refl)
on_report-IsRun ended s = finish-IsRun s
on_report-IsRun (failed code) s = error-IsRun s code s.live refl

on_reports-IsRun :
    (rs : List Report) (s : SessionState) → IsRun s (on_reports rs s).1 (on_reports rs s).0
unfolding on_reports
on_reports-IsRun [] s = still s s [] refl (sym (or_false s.heard)) refl refl (λ _. refl)
on_reports-IsRun (r ∷ rs) s =
    let (next, calls) = on_report r s in
    let (last, rest) = on_reports rs next in
    IsRun-then s next last calls rest (on_report-IsRun r s) (on_reports-IsRun rs next)

set_deadline-live : (s : SessionState) → (set_deadline s).live ≡ s.live
unfolding set_deadline
set_deadline-live s = if-elim (λ (t : SessionState). t.live ≡ s.live) s.live refl refl

set_deadline-heard : (s : SessionState) → (set_deadline s).heard ≡ s.heard
unfolding set_deadline
set_deadline-heard s = if-elim (λ (t : SessionState). t.heard ≡ s.heard) s.live refl refl

-- Only whether a session lives and what it heard counts.
Covers-similar :
    (s t s' t' : SessionState) (calls : List SessionCall)
    → s.heard ≡ t.heard
    → t'.live ≡ s'.live
    → t'.heard ≡ s'.heard
    → Covers s calls s'
    → Covers t calls t'
Covers-similar s t s' t' calls h l h' (goes_on on quiet hears kept) =
    goes_on (l ∙ on) quiet (h' ∙ hears ∙ ap (λ k. k || any is_final calls) h) kept
Covers-similar s t s' t' calls h l h' (dropped off quiet gone) = dropped (l ∙ off) quiet gone
Covers-similar s t s' t' calls h l h' (over off last kept) =
    over (l ∙ off) (subst (λ k. Announces k calls) h last) kept

stop_when :
    (s : SessionState) (r : SessionState × List SessionCall) (b c : Bool)
    → s.live ≡ b
    → (s.live ≡ true → Covers s r.1 r.0)
    → IsRun s (if b && not c then r else (s, [])).1 (if b && not c then r else (s, [])).0
stop_when s r true true e c = still s s [] refl (sym (or_false s.heard)) refl refl (λ _. refl)
stop_when s r true false e c = when_live s r true e c
stop_when s r false k e c = when_live s r false e c

stop-IsRun : (rs : List Report) (s : SessionState) → IsRun s (stop rs s).1 (stop rs s).0
unfolding stop
stop-IsRun rs s =
    let stopped = record s { stopping = true; timer = none } in
    let (next, calls) = on_reports rs stopped in
    stop_when s (set_deadline next, stop_recognizer ∷ calls) s.live s.stopping refl
      (λ live.
        Covers-similar stopped s next (set_deadline next) (stop_recognizer ∷ calls) refl
          (set_deadline-live next) (set_deadline-heard next)
          (Covers-after stopped stopped next (stop_recognizer ∷ []) calls live refl
            (sym (or_false s.heard)) refl ((on_reports-IsRun rs stopped).0 live)))

abort-IsRun : (rs : List Report) (s : SessionState) → IsRun s (abort rs s).1 (abort rs s).0
unfolding abort
abort-IsRun rs s =
    let (next, calls) = on_reports rs (record s { live = false; timer = none }) in
    when_live s (next, abort_recognizer ∷ calls) s.live refl
      (λ _.
        let (e, off) = (on_reports-IsRun rs (record s { live = false; timer = none })).1 refl in
        dropped off (ap ends e) refl)

timer_kept :
    (s s' : SessionState) (calls : List SessionCall)
    → IsRun (record s { timer = none }) calls s'
    → IsRun s calls s'
timer_kept s s' calls (one, one_dead) = (
  λ live. Covers-similar (record s { timer = none }) s s' s' calls refl refl refl (one live),
  one_dead,
)

fire-IsRun :
    (rs : List Report) (s : SessionState) (t : Option SessionTimer)
    → IsRun s (fire rs s t).1 (fire rs s t).0
unfolding fire
fire-IsRun rs s none = still s s [] refl (sym (or_false s.heard)) refl refl (λ _. refl)
fire-IsRun rs s (some silence) =
    let (s', calls) = stop rs (record s { timer = none }) in
    timer_kept s s' calls (stop-IsRun rs (record s { timer = none }))
fire-IsRun rs s (some stop_deadline) =
    let (s', calls) = finish (record s { timer = none }) in
    timer_kept s s' calls (finish-IsRun (record s { timer = none }))

pub run_timer-IsRun :
    (rs : List Report) (s : SessionState) → IsRun s (run_timer rs s).1 (run_timer rs s).0
unfolding run_timer
run_timer-IsRun rs s = fire-IsRun rs s s.timer

session_step-IsRun :
    (s : SessionState) (event : SessionEvent)
    → IsRun s (session_step s event).1 (session_step s event).0
unfolding session_step
session_step-IsRun s (reported r) = on_report-IsRun r s
session_step-IsRun s (stop_pressed rs) = stop-IsRun rs s
session_step-IsRun s (timer_fired rs) = run_timer-IsRun rs s
session_step-IsRun s (aborted rs) = abort-IsRun rs s

pub run_session-IsRun :
    (s : SessionState) (events : List SessionEvent)
    → IsRun s (run_session s events).1 (run_session s events).0
unfolding run_session
run_session-IsRun s [] = still s s [] refl (sym (or_false s.heard)) refl refl (λ _. refl)
run_session-IsRun s (event ∷ events) =
    let (next, calls) = session_step s event in
    let (last, rest) = run_session next events in
    IsRun-then s next last calls rest (session_step-IsRun s event) (run_session-IsRun next events)

arm-IsRun :
    (s s' : SessionState) (calls : List SessionCall) → IsRun s calls s' → IsRun s calls (arm s')
arm-IsRun s s' calls (one, one_dead) = (
  λ live. Covers-similar s s s' (arm s') calls refl (arm-live s') (arm-heard s') (one live),
  λ dead. let (e, k) = one_dead dead in (e, arm-live s' ∙ k),
)

-- Where the session that was started is after the steps, and all its calls.
abbrev pub session_after : List Report → List SessionEvent → SessionState
session_after reports events = (run_session (arm (on_reports reports fresh).0) events).0

abbrev pub session_calls : List Report → List SessionEvent → List SessionCall
session_calls reports events =
    (on_reports reports fresh).1 ++ (run_session (arm (on_reports reports fresh).0) events).1

pub session-Covers :
    (reports : List Report) (events : List SessionEvent)
    → Covers fresh (session_calls reports events) (session_after reports events)
session-Covers reports events =
    let (s, calls) = on_reports reports fresh in
    let (s', rest) = run_session (arm s) events in
    (IsRun-then fresh (arm s) s' calls rest
        (arm-IsRun fresh s calls (on_reports-IsRun reports fresh))
        (run_session-IsRun (arm s) events)).0
      refl

some-inj : {s t : SessionState} → some s ≡ some t → s ≡ t
some-inj h = cc

-- The state and the calls of a session that was started.
pub started :
    (reports : List Report) (s : SessionState) (calls : List SessionCall)
    → start_session true reports false ≡ (some s, calls)
    → (arm (on_reports reports fresh).0 ≡ s) × ((on_reports reports fresh).1 ≡ calls)
unfolding start_session
started reports s calls h = (some-inj (ap (λ p. p.0) h), ap (λ p. p.1) h)

-- Of a session that starts, whatever the recognizer reports, whoever presses and whichever timer fires:
-- either the end was never announced, or it was announced once, after all other calls, and says whether
-- a final phrase was passed on before.
pub session_calls-announced :
    (reports : List Report) (events : List SessionEvent) (s : SessionState)
    (calls : List SessionCall)
    → start_session true reports false ≡ (some s, calls)
    → let all = calls ++ (run_session s events).1 in (ends all ≡ 0) ⊎ Announces false all
session_calls-announced reports events s calls h =
    let (e, k) = started reports s calls h in
    subst
      (λ t.
        (ends (calls ++ (run_session t events).1) ≡ 0)
        ⊎ Announces false (calls ++ (run_session t events).1))
      e
      (subst
        (λ c.
          let all = c ++ (run_session (arm (on_reports reports fresh).0) events).1 in
          (ends all ≡ 0) ⊎ Announces false all)
        k
        (elim (session-Covers reports events) [
          | goes_on on quiet hears kept ↦ inl quiet
          | dropped off quiet gone ↦ inl quiet
          | over off last kept ↦ inr last
        ]))
