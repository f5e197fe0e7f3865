-- ===== src/Collab/Throttle/Burst.antt =====
-- throttle.ts: bursts of calls.
use inkstave.Prelude.{
  ℕ, suc, ◌+◌, ◌≤◌, ◌≡◌, refl, ap, true, false, some, List, [], ◌∷◌, ◌++◌, map, if◌then◌else◌,
  length, arith, Bool-cases, Option-cases, inl, inr,
}
use inkstave.Collab.Throttle.{
  ThrottleState, ThrottleEvent, called, fired, cancelled, wrapped, run_timer, cancel, throttle_step,
  invocations,
}

module _ {ℓ} {A : Type ℓ} where
  -- The last of the calls after the first, if there is one.
  abbrev pub last_of : List A → List A
  last_of [] = []
  last_of (a ∷ []) = a ∷ []
  last_of (a ∷ b ∷ rest) = last_of (b ∷ rest)

  invocations-pending :
      (s : ThrottleState A) (a : A) (rest : List A)
      → s.timer ≡ true
      → s.pending ≡ true
      → s.last_args ≡ some a
      → invocations s (map called rest ++ fired ∷ []) ≡ last_of (a ∷ rest)
  unfolding invocations throttle_step wrapped run_timer
  invocations-pending s a [] h k l = rw (h, k, l)
  invocations-pending s a (b ∷ rest) h k l = rw h (
      invocations-pending (record s { timer = true; last_args = some b; pending = true }) b rest
        refl refl refl)

  invocations-waiting :
      (s : ThrottleState A) (rest : List A)
      → s.timer ≡ true
      → s.pending ≡ false
      → invocations s (map called rest ++ fired ∷ []) ≡ last_of rest
  unfolding invocations throttle_step wrapped run_timer
  invocations-waiting s [] h k = rw (h, k)
  invocations-waiting s (a ∷ rest) h k = rw h (
      invocations-pending (record s { timer = true; last_args = some a; pending = true }) a rest
        refl refl refl)

  -- Of a burst of calls that starts while no timer runs, the function sees the first at once and, when
  -- the timer fires, the last, if there was more than one.
  pub invocations-burst :
      (s : ThrottleState A) (a : A) (rest : List A)
      → s.timer ≡ false
      → s.pending ≡ false
      → invocations s (called a ∷ (map called rest ++ fired ∷ [])) ≡ a ∷ last_of rest
  unfolding invocations throttle_step wrapped
  invocations-burst s a rest h k = rw h (
      ap (λ calls. a ∷ calls)
        (invocations-waiting (record s { last_args = some a; timer = true }) rest refl k))

  -- How often the timer may have been stopped.
  abbrev pub stops : List (ThrottleEvent A) → ℕ
  stops [] = 0
  stops (called args ∷ events) = stops events
  stops (fired ∷ events) = suc (stops events)
  stops (cancelled ∷ events) = suc (stops events)

  -- The function is called at most once more than the timer fires or is cancelled, and at most as
  -- often while a timer runs at the start.
  pub length-invocations :
      (s : ThrottleState A) (events : List (ThrottleEvent A))
      → length (invocations s events) ≤ stops events + (if s.timer then 0 else 1)
  unfolding invocations throttle_step wrapped run_timer cancel
  length-invocations s [] = omega arith
  length-invocations s (called args ∷ events) =
      let next : ThrottleState A = record {
        timer = true;
        pending = if s.timer then true else s.pending;
        last_args = some args;
      } in
      let rest = length-invocations next events in
      elim (Bool-cases s.timer) [
        | inl h ↦ rw h (omega (arith, rw h at rest))
        | inr h ↦ rw h (omega (arith, rw h at rest))
      ]
  length-invocations s (fired ∷ events) = elim (Bool-cases s.timer) [
    | inr h ↦ rw h (omega (arith, rw h at (length-invocations s events)))
    | inl h ↦ elim (Bool-cases s.pending) [
      | inr k ↦
          rw (h, k)
            (omega (
              arith,
              length-invocations
                  (record { timer = false; pending = false; last_args = s.last_args }) events,
            ))
      | inl k ↦ elim (Option-cases s.last_args) [
        | inl l ↦
            rw (h, k, l)
              (omega (
                arith,
                length-invocations
                    (record { timer = false; pending = s.pending; last_args = s.last_args }) events,
              ))
        | inr (a, l) ↦
            rw (h, k, l)
              (omega (
                arith,
                length-invocations (record { timer = true; pending = false; last_args = some a })
                    events,
              ))
      ]
    ]
  ]
  length-invocations s (cancelled ∷ events) = omega (arith, length-invocations (cancel s) events)
