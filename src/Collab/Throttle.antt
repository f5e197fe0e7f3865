-- ===== src/Collab/Throttle.antt =====
-- throttle.ts: calls that come in a burst, collapsed. The three variables of the closure are the state;
-- a step is a call, the timer or a cancellation, and yields the calls of `fn` that it makes.
pub mod Burst
mod Tests
use inkstave.Prelude.{
  ℕ, zero, suc, ◌+◌, Bool, true, false, Option, none, some, List, [], ◌∷◌, ◌++◌, if◌then◌else◌,
}

pub record ThrottleState {ℓ} (A : Type ℓ) : Type ℓ where
  pub timer : Bool
  pub pending : Bool
  pub last_args : Option A

pub data ThrottleEvent {ℓ} (A : Type ℓ) : Type ℓ where
  called : (args : A) → ThrottleEvent A
  fired cancelled : ThrottleEvent A

module _ {ℓ} {A : Type ℓ} where
  -- `throttle` before the first call.
  abbrev pub idle : ThrottleState A
  idle = record { timer = false; pending = false; last_args = none }

  unfoldable pub wrapped : A → ThrottleState A → ThrottleState A × List A
  wrapped args s =
      if s.timer
      then (record s { last_args = some args; pending = true }, [])
      else (record s { last_args = some args; timer = true }, args ∷ [])

  -- The function that `setTimeout` runs.
  unfoldable pub run_timer : ThrottleState A → ThrottleState A × List A
  unfolding wrapped
  run_timer s =
      let stopped = record s { timer = false } in
      if s.pending
      then elim s.last_args [
        | none ↦ (stopped, [])
        | some args ↦ wrapped args (record stopped { pending = false })
      ]
      else (stopped, [])

  unfoldable pub cancel : ThrottleState A → ThrottleState A
  cancel s = record { timer = false; pending = false; last_args = none }

  unfoldable pub throttle_step : ThrottleState A → ThrottleEvent A → ThrottleState A × List A
  unfolding wrapped run_timer cancel
  throttle_step s (called args) = wrapped args s
  throttle_step s fired = if s.timer then run_timer s else (s, [])
  throttle_step s cancelled = (cancel s, [])

  -- All calls of `fn`, in order.
  unfoldable pub invocations : ThrottleState A → List (ThrottleEvent A) → List A
  unfolding throttle_step
  invocations s [] = []
  invocations s (event ∷ events) =
      let (s', calls) = throttle_step s event in calls ++ invocations s' events
